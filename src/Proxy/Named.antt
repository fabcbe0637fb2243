-- ===== src/Proxy/Named.antt =====
-- The tokens of the Connection fields: whatever such a field names, blanks around it and in any case,
-- is in their set.
use c_item.Base.{
  ℕ, zero, suc, ◌≡◌, refl, ap, subst, ◌∙◌, inl, inr, true, false, some, some_inj, List, [], ◌∷◌,
  ◌++◌, arith, length, get_elem?, Each, Bool-cases,
}
use c_item.Base.Text.{eq_bytes_iff}
use c_item.Base.Pieces.{pieces}
use c_item.Handler.{Field}
use c_item.Proxy.{
  lower, lowercase, is_blank, trim_front, trim_back, trim_http_token, insert_token, is_connection,
  collect_tokens, contains,
}
use c_item.Proxy.Tokens.{insert_all, token_loop-pieces}

abbrev pub IsBlank : List ℕ → Type 0
IsBlank s = Each (λ c. is_blank c ≡ true) s

abbrev pub IsSolid : List ℕ → Type 0
IsSolid s = Each (λ c. is_blank c ≡ false) s

trim_back_blank : (s : List ℕ) → IsBlank s → trim_back s ≡ []
unfolding trim_back
trim_back_blank [] b = refl
trim_back_blank (c ∷ s) b = simp (b.0, trim_back_blank s b.1) refl

trim_back_solid : (u back : List ℕ) → IsSolid u → IsBlank back → trim_back (u ++ back) ≡ u
unfolding trim_back
trim_back_solid [] back v b = trim_back_blank back b
trim_back_solid (c ∷ u) back v b = simp (v.0, trim_back_solid u back v.1 b) refl

trim_front_blank :
    (front : List ℕ) (c : ℕ) (s : List ℕ)
    → IsBlank front
    → is_blank c ≡ false
    → trim_front (front ++ c ∷ s) ≡ c ∷ s
unfolding trim_front
trim_front_blank [] c s b e = rw e refl
trim_front_blank (x ∷ front) c s b e = rw b.0 (trim_front_blank front c s b.1 e)

-- A token is what stands between the blanks.
trim_http_token-append :
    (front back : List ℕ) (c : ℕ) (u : List ℕ)
    → IsBlank front
    → IsSolid (c ∷ u)
    → IsBlank back
    → trim_http_token (front ++ ((c ∷ u) ++ back)) ≡ lowercase (c ∷ u)
unfolding trim_http_token
trim_http_token-append front back c u b v b' =
    ap (λ s. lowercase (trim_back s)) (trim_front_blank front c (u ++ back) b v.0)
    ∙ ap lowercase (trim_back_solid (c ∷ u) back v b')

contains-insert_token :
    (t x : List ℕ) (tokens : List (List ℕ))
    → contains t tokens ≡ true
    → contains t (insert_token x tokens) ≡ true
unfolding contains
contains-insert_token t [] tokens e = e
contains-insert_token t (c ∷ x) tokens e = ground arith

contains_inserted :
    (c : ℕ) (t : List ℕ) (tokens : List (List ℕ))
    → contains (c ∷ t) (insert_token (c ∷ t) tokens) ≡ true
unfolding contains
contains_inserted c t tokens = rw ((eq_bytes_iff (c ∷ t) (c ∷ t)).1 refl) refl

contains-insert_all :
    (t : List ℕ) (ps tokens : List (List ℕ))
    → contains t tokens ≡ true
    → contains t (insert_all ps tokens) ≡ true
unfolding insert_all
contains-insert_all t [] tokens e = e
contains-insert_all t (p ∷ ps) tokens e =
    contains-insert_all t ps _ (contains-insert_token t (trim_http_token p) tokens e)

piece_inserted :
    (c : ℕ) (t : List ℕ) (ps tokens : List (List ℕ)) (k : ℕ) {p : List ℕ}
    → get_elem? ps k ≡ some p
    → trim_http_token p ≡ c ∷ t
    → contains (c ∷ t) (insert_all ps tokens) ≡ true
unfolding insert_all
piece_inserted c t [] tokens k e f = cc
piece_inserted c t (q ∷ ps) tokens zero e f =
    let g : trim_http_token q ≡ c ∷ t = ap trim_http_token (some_inj e) ∙ f in
    contains-insert_all (c ∷ t) ps _ (rw g (contains_inserted c t tokens))
piece_inserted c t (q ∷ ps) tokens (suc k) e f = piece_inserted c t ps _ k e f

contains-collect_tokens :
    (t : List ℕ) (fs : List Field) (tokens : List (List ℕ))
    → contains t tokens ≡ true
    → contains t (collect_tokens fs tokens) ≡ true
unfolding collect_tokens
contains-collect_tokens t [] tokens e = e
contains-collect_tokens t (f ∷ fs) tokens e = elim (Bool-cases (is_connection f.name)) [
  | inl h ↦ rw h (
      contains-collect_tokens t fs _ (
        rw (token_loop-pieces (suc (length f.value)) f.value tokens (omega arith))
          (contains-insert_all t (pieces b',' f.value) tokens e)))
  | inr h ↦ rw h (contains-collect_tokens t fs tokens e)
]

token_collected :
    (c : ℕ) (t : List ℕ) (fs : List Field) (tokens : List (List ℕ)) (i k : ℕ) {g : Field}
    {p : List ℕ}
    → get_elem? fs i ≡ some g
    → is_connection g.name ≡ true
    → get_elem? (pieces b',' g.value) k ≡ some p
    → trim_http_token p ≡ c ∷ t
    → contains (c ∷ t) (collect_tokens fs tokens) ≡ true
unfolding collect_tokens
token_collected c t [] tokens i k e n h m = cc
token_collected c t (f ∷ fs) tokens zero k {g} {p} e n h m =
    let same : f ≡ g = some_inj e in
    let named : is_connection f.name ≡ true = ap (λ (x : Field). is_connection x.name) same ∙ n in
    let there : get_elem? (pieces b',' f.value) k ≡ some p =
      ap (λ (x : Field). get_elem? (pieces b',' x.value) k) same ∙ h in
    rw named (
      contains-collect_tokens (c ∷ t) fs _ (
        rw (token_loop-pieces (suc (length f.value)) f.value tokens (omega arith))
          (piece_inserted c t (pieces b',' f.value) tokens k there m)))
token_collected c t (f ∷ fs) tokens (suc i) k e n h m = token_collected c t fs _ i k e n h m

-- A Connection field of the message has, between two commas, the name in any case, with blanks
-- around it.
pub record IsNamed (fs : List Field) (name : List ℕ) : Type 0 where
  pub place : ℕ
  pub field : Field
  pub found : get_elem? fs place ≡ some field
  pub is_connection_field : is_connection field.name ≡ true
  pub piece : ℕ
  pub front : List ℕ
  pub first : ℕ
  pub others : List ℕ
  pub back : List ℕ
  pub between :
      get_elem? (pieces b',' field.value) piece ≡ some (front ++ ((first ∷ others) ++ back))
  pub blank_front : IsBlank front
  pub solid : IsSolid (first ∷ others)
  pub blank_back : IsBlank back
  pub same_name : lowercase (first ∷ others) ≡ lowercase name

pub IsNamed-contains :
    (fs : List Field) (name : List ℕ)
    → IsNamed fs name
    → contains (lowercase name) (collect_tokens fs []) ≡ true
IsNamed-contains fs name v =
    subst (λ t. contains t (collect_tokens fs []) ≡ true) v.same_name
      (token_collected (lower v.first) (lowercase v.others) fs [] v.place v.piece v.found
        v.is_connection_field v.between
        (trim_http_token-append v.front v.back v.first v.others v.blank_front v.solid v.blank_back))
