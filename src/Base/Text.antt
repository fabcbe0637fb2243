-- ===== src/Base/Text.antt =====
-- Text as the list of its bytes, with the searches of std::string_view that the source makes.
use Prim.Native.Char.{code}
use Prim.Native.Nat.{ℕ, suc, ◌+◌}
use Prim.Native.String.{String}
use mathlib.Core.Path.{◌≡◌, refl, sym, ap, ap₂, subst, ◌∙◌}
use mathlib.Core.Logic.{◌↔◌, inl, inr}
use mathlib.Core.Bool.{Bool, true, false, ◌&&◌}
use mathlib.Core.List.{List, [], ◌∷◌, ◌++◌}
use mathlib.Core.Option.{Option, none, some}
use native.Mathlib.Omega.{arith}
use c_item.Base.Lists.{take, drop, length}
use c_item.Base.Tests.{◌==◌, if◌then◌else◌, ==_iff, and_true, Bool-cases, Option-cases, some_inj}

-- The bytes of an ASCII literal.
abbrev pub codes : String → List ℕ
codes String.[] = []
codes (String.◌∷◌ c s) = code c ∷ codes s

unfoldable pub eq_bytes : List ℕ → List ℕ → Bool
eq_bytes [] [] = true
eq_bytes (x ∷ xs) (y ∷ ys) = x == y && eq_bytes xs ys
eq_bytes _ _ = false

-- `s.starts_with(prefix)` as `starts_with prefix s`.
unfoldable pub starts_with : List ℕ → List ℕ → Bool
starts_with [] s = true
starts_with (p ∷ ps) [] = false
starts_with (p ∷ ps) (c ∷ s) = p == c && starts_with ps s

-- The position of the first `c`; `none` is npos.
unfoldable pub find_byte : ℕ → List ℕ → Option ℕ
find_byte c [] = none
find_byte c (x ∷ s) =
    let rest = find_byte c s in
    if x == c then some 0 else elim rest [ none ↦ none | some n ↦ some (n + 1) ]

-- `substr(0, n)`, where `n` may be npos.
abbrev pub up_to : Option ℕ → List ℕ → List ℕ
up_to none s = s
up_to (some n) s = take n s

unfoldable pub all_bytes : (ℕ → Bool) → List ℕ → Bool
all_bytes p [] = true
all_bytes p (c ∷ s) = p c && all_bytes p s

pub eq_bytes_iff : (s t : List ℕ) → (eq_bytes s t ≡ true) ↔ (s ≡ t)
unfolding eq_bytes
eq_bytes_iff [] [] = ((λ h. refl), (λ h. refl))
eq_bytes_iff [] (y ∷ t) = ((λ h. cc), (λ h. cc))
eq_bytes_iff (x ∷ s) [] = ((λ h. cc), (λ h. cc))
eq_bytes_iff (x ∷ s) (y ∷ t) = ground (arith, eq_bytes_iff s t)

pub starts_with_rest : (p s : List ℕ) → starts_with p s ≡ true → p ++ drop (length p) s ≡ s
unfolding starts_with
starts_with_rest [] s h = refl
starts_with_rest (x ∷ p) [] h = cc
starts_with_rest (x ∷ p) (c ∷ s) h =
    let (e, f) : ((x == c) ≡ true) × (starts_with p s ≡ true) =
      and_true (x == c) (starts_with p s) h in
    ap₂ ◌∷◌ ((==_iff x c).0 e) (starts_with_rest p s f)

pub starts_with-append : (p r : List ℕ) → starts_with p (p ++ r) ≡ true
unfolding starts_with
starts_with-append [] r = refl
starts_with-append (x ∷ p) r = rw ((==_iff x x).1 refl) (starts_with-append p r)

-- Two prefixes of one text that are equally long are the same.
pub starts_with_unique :
    (p q s : List ℕ) → starts_with p s ≡ true → starts_with q s ≡ true → length p ≡ length q → p ≡ q
unfolding starts_with
starts_with_unique [] [] s h k e = refl
starts_with_unique [] (y ∷ q) s h k e = absurd (omega (arith, e))
starts_with_unique (x ∷ p) [] s h k e = absurd (omega (arith, e))
starts_with_unique (x ∷ p) (y ∷ q) [] h k e = cc
starts_with_unique (x ∷ p) (y ∷ q) (c ∷ s) h k e =
    let (a, b) : ((x == c) ≡ true) × (starts_with p s ≡ true) =
      and_true (x == c) (starts_with p s) h in
    let (a', b') : ((y == c) ≡ true) × (starts_with q s ≡ true) =
      and_true (y == c) (starts_with q s) k in
    ap₂ ◌∷◌ ((==_iff x c).0 a ∙ sym ((==_iff y c).0 a'))
      (starts_with_unique p q s b b' (omega (arith, e)))

-- A text with `c` in it is what stands before its first `c`, that `c`, and what stands behind.
pub find_byte_found :
    (c : ℕ) (s : List ℕ) (i : ℕ)
    → find_byte c s ≡ some i
    → (s ≡ take i s ++ c ∷ drop (suc i) s) × (drop i s ≡ c ∷ drop (suc i) s)
unfolding find_byte
find_byte_found c [] i e = cc
find_byte_found c (x ∷ s) i e = elim (Bool-cases (x == c)) [
  | inl f ↦
      let zero_eq : 0 ≡ i = some_inj (rw f at e) in
      let same : x ≡ c = (==_iff x c).0 f in
      subst
        (λ j.
          (x ∷ s ≡ take j (x ∷ s) ++ c ∷ drop (suc j) (x ∷ s))
          × (drop j (x ∷ s) ≡ c ∷ drop (suc j) (x ∷ s)))
        zero_eq (ap (λ y. y ∷ s) same, ap (λ y. y ∷ s) same)
  | inr f ↦ elim (Option-cases (find_byte c s)) [
    | inl g ↦ cc (rw (f, g) at e)
    | inr (j, g) ↦
        let (p, q) = find_byte_found c s j g in
        let suc_eq : suc j ≡ i = omega (arith, some_inj (rw (f, g) at e)) in
        subst
          (λ j.
            (x ∷ s ≡ take j (x ∷ s) ++ c ∷ drop (suc j) (x ∷ s))
            × (drop j (x ∷ s) ≡ c ∷ drop (suc j) (x ∷ s)))
          suc_eq (ap (λ t. x ∷ t) p, q)
  ]
]

pub find_byte-append :
    (c : ℕ) (s r : List ℕ) → find_byte c s ≡ none → find_byte c (s ++ c ∷ r) ≡ some (length s)
unfolding find_byte
find_byte-append c [] r e = rw ((==_iff c c).1 refl) refl
find_byte-append c (x ∷ s) r e = elim (Bool-cases (x == c)) [
  | inl f ↦ cc (rw f at e)
  | inr f ↦ elim (Option-cases (find_byte c s)) [
    | inl g ↦ rw (f, find_byte-append c s r g) (ap some (omega arith))
    | inr (j, g) ↦ cc (rw (f, g) at e)
  ]
]
