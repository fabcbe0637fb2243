-- ===== src/Handler/Boundary.antt =====
-- src/http_handler.cpp, select_http_route: a prefix matches a path where a segment ends.
use c_item.Base.{
  ℕ, zero, suc, ◌≡◌, ◌⊎◌, refl, sym, ap, subst, ◌∙◌, inl, inr, true, ◌||◌, some, some_inj, List, [],
  ◌∷◌, ◌++◌, arith, length, drop, get_elem?, ◌==◌, ==_iff, Bool-cases, Option-cases, and_true,
}
use c_item.Base.Text.{
  codes, eq_bytes, eq_bytes_iff, starts_with, starts_with_rest, starts_with-append,
}
use c_item.Handler.{matches, char_is}

-- The path is the prefix, or goes on behind it with a new segment; everything lies under the root.
abbrev pub AtBoundary : List ℕ → List ℕ → Type 0
AtBoundary prefix path =
    (rest : List ℕ) × (path ≡ prefix ++ rest)
    × ((rest ≡ []) ⊎ (((s : List ℕ) × (rest ≡ b'/' ∷ s)) ⊎ (prefix ≡ b'/' ∷ [])))

drop_all : (n : ℕ) (s : List ℕ) → length s ≡ n → drop n s ≡ []
drop_all zero [] e = refl
drop_all zero (c ∷ s) e = absurd (omega (arith, e))
drop_all (suc n) [] e = refl
drop_all (suc n) (c ∷ s) e = drop_all n s (omega (arith, e))

drop_at : (n c : ℕ) (s : List ℕ) → get_elem? s n ≡ some c → drop n s ≡ c ∷ drop (suc n) s
drop_at zero c [] e = cc
drop_at zero c (x ∷ s) e = ap (λ y. y ∷ s) (some_inj e)
drop_at (suc n) c [] e = cc
drop_at (suc n) c (x ∷ s) e = drop_at n c s e

-- Behind a whole segment the path ends, or the next segment begins.
pub boundary :
    (n : ℕ) (s : List ℕ)
    → (length s == n || char_is (get_elem? s n) b'/') ≡ true
    → (drop n s ≡ []) ⊎ ((t : List ℕ) × (drop n s ≡ b'/' ∷ t))
boundary n s h = elim (Bool-cases (length s == n)) [
  | inl e ↦ inl (drop_all n s ((==_iff (length s) n).0 e))
  | inr e ↦ elim (Option-cases (get_elem? s n)) [
    | inl f ↦ cc (rw (e, f) at h)
    | inr (c, f) ↦
        let slash : (c == b'/') ≡ true = rw (e, f) at h in
        inr
          (drop (suc n) s, drop_at n c s f ∙ ap (λ x. x ∷ drop (suc n) s) ((==_iff c b'/').0 slash))
  ]
]

pub matches-AtBoundary :
    (prefix path : List ℕ) → matches prefix path ≡ true → AtBoundary prefix path
unfolding matches
matches-AtBoundary prefix path e =
    let (a, b) = and_true (starts_with prefix path) _ e in
    let whole = sym (starts_with_rest prefix path a) in
    elim (Bool-cases (eq_bytes prefix (codes "/"))) [
      | inl f ↦
          (drop (length prefix) path, whole, inr (inr ((eq_bytes_iff prefix (codes "/")).0 f)))
      | inr f ↦ elim (boundary (length prefix) path (rw f at b)) [
        | inl g ↦ (drop (length prefix) path, whole, inl g)
        | inr g ↦ (drop (length prefix) path, whole, inr (inl g))
      ]
    ]

length-append_nil : (p : List ℕ) → (length (p ++ []) == length p) ≡ true
length-append_nil [] = refl
length-append_nil (x ∷ p) = ground (arith, length-append_nil p)

get_elem?-append : (p : List ℕ) (c : ℕ) (s : List ℕ) → get_elem? (p ++ c ∷ s) (length p) ≡ some c
get_elem?-append [] c s = refl
get_elem?-append (x ∷ p) c s = get_elem?-append p c s

append-matches :
    (prefix rest : List ℕ)
    → (rest ≡ []) ⊎ (((s : List ℕ) × (rest ≡ b'/' ∷ s)) ⊎ (prefix ≡ b'/' ∷ []))
    → matches prefix (prefix ++ rest) ≡ true
unfolding matches
append-matches prefix rest (inl f) =
    rw f (rw (starts_with-append prefix [], length-append_nil prefix) (ground arith))
append-matches prefix rest (inr (inl (s, f))) =
    rw f (rw (starts_with-append prefix (b'/' ∷ s), get_elem?-append prefix b'/' s) (ground arith))
append-matches prefix rest (inr (inr f)) =
    rw (starts_with-append prefix rest, (eq_bytes_iff prefix (codes "/")).1 f) refl

pub AtBoundary-matches :
    (prefix path : List ℕ) → AtBoundary prefix path → matches prefix path ≡ true
AtBoundary-matches prefix path (rest, e, ends) =
    subst (λ p. matches prefix p ≡ true) (sym e) (append-matches prefix rest ends)
