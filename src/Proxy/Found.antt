-- ===== src/Proxy/Found.antt =====
-- The tokens of the Connection fields, the other way: what is in their set is named by a field.
use c_item.Base.{
  ℕ, suc, ◌≡◌, ◌⊎◌, refl, sym, ap, subst, ◌∙◌, inl, inr, true, false, ◌&&◌, some, List, [], ◌∷◌,
  ◌++◌, arith, length, get_elem?, Bool-cases,
}
use c_item.Base.Text.{eq_bytes, eq_bytes_iff}
use c_item.Base.Pieces.{pieces}
use c_item.Handler.{Field}
use c_item.Proxy.{
  lower, lowercase, is_blank, is_nil, trim_front, trim_back, trim_http_token, insert_token,
  is_connection, collect_tokens, contains,
}
use c_item.Proxy.Tokens.{insert_all, token_loop-pieces}
use c_item.Proxy.Named.{IsBlank, IsSolid, IsNamed}

trim_front_found : (s : List ℕ) → (front : List ℕ) × (s ≡ front ++ trim_front s) × IsBlank front
unfolding trim_front
trim_front_found [] = ([], refl, tt)
trim_front_found (c ∷ s) = elim (Bool-cases (is_blank c)) [
  | inl e ↦ let (front, f, b) = trim_front_found s in rw e (c ∷ front, ap (λ t. c ∷ t) f, (e, b))
  | inr e ↦ rw e ([], refl, tt)
]

is_nil-eq : (s : List ℕ) → is_nil s ≡ true → s ≡ []
is_nil-eq [] e = refl
is_nil-eq (c ∷ s) e = cc

trim_back_found : (s : List ℕ) → (back : List ℕ) × (s ≡ trim_back s ++ back) × IsBlank back
unfolding trim_back
trim_back_found [] = ([], refl, tt)
trim_back_found (c ∷ s) =
    let (back, f, b) = trim_back_found s in
    elim (Bool-cases (is_blank c && is_nil (trim_back s))) [
      | inl e ↦
          let (blank, empty) : (is_blank c ≡ true) × (is_nil (trim_back s) ≡ true) = ground arith in
          let same : s ≡ back = f ∙ ap (λ t. t ++ back) (is_nil-eq (trim_back s) empty) in
          rw e (c ∷ back, ap (λ t. c ∷ t) same, (blank, b))
      | inr e ↦ rw e (back, ap (λ t. c ∷ t) f, b)
    ]

lower-solid : (c : ℕ) → is_blank (lower c) ≡ false → is_blank c ≡ false
lower-solid c e = ground arith

solid-lower : (c : ℕ) → is_blank c ≡ false → is_blank (lower c) ≡ false
solid-lower c e = ground arith

lowercase-IsSolid : (s : List ℕ) → IsSolid s → IsSolid (lowercase s)
lowercase-IsSolid [] v = tt
lowercase-IsSolid (c ∷ s) v = (solid-lower c v.0, lowercase-IsSolid s v.1)

IsSolid-lowercase : (s : List ℕ) → IsSolid (lowercase s) → IsSolid s
IsSolid-lowercase [] v = tt
IsSolid-lowercase (c ∷ s) v = (lower-solid c v.0, IsSolid-lowercase s v.1)

insert_token_found :
    (t x : List ℕ) (tokens : List (List ℕ))
    → contains t (insert_token x tokens) ≡ true
    → (contains t tokens ≡ true) ⊎ ((x ≡ t) × (is_nil x ≡ false))
unfolding contains
insert_token_found t [] tokens e = inl e
insert_token_found t (c ∷ x) tokens e = elim (Bool-cases (eq_bytes t (c ∷ x))) [
  | inl f ↦ inr (sym ((eq_bytes_iff t (c ∷ x)).0 f), refl)
  | inr f ↦ inl (rw f at e)
]

-- The piece of a value that a token is.
abbrev PieceOf : List ℕ → List (List ℕ) → Type 0
PieceOf t ps =
    (k : ℕ) × (p : List ℕ) × (get_elem? ps k ≡ some p)
    × (trim_http_token p ≡ t)
    × (is_nil (trim_http_token p) ≡ false)

insert_all_found :
    (t : List ℕ) (ps tokens : List (List ℕ))
    → contains t (insert_all ps tokens) ≡ true
    → (contains t tokens ≡ true) ⊎ PieceOf t ps
unfolding insert_all
insert_all_found t [] tokens e = inl e
insert_all_found t (p ∷ ps) tokens e =
    elim (insert_all_found t ps (insert_token (trim_http_token p) tokens) e) [
      | inr (k, q, g, h, n) ↦ inr (suc k, q, g, h, n)
      | inl f ↦ elim (insert_token_found t (trim_http_token p) tokens f) [
        | inl g ↦ inl g
        | inr (g, n) ↦ inr (0, p, refl, g, n)
      ]
    ]

-- The field that has the piece.
record FieldOf (t : List ℕ) (fs : List Field) : Type 0 where
  place : ℕ
  field : Field
  found : get_elem? fs place ≡ some field
  is_connection_field : is_connection field.name ≡ true
  piece : PieceOf t (pieces b',' field.value)

FieldOf-cons : (t : List ℕ) (f : Field) (fs : List Field) → FieldOf t fs → FieldOf t (f ∷ fs)
FieldOf-cons t f fs v = record {
  place = suc v.place;
  field = v.field;
  found = v.found;
  is_connection_field = v.is_connection_field;
  piece = v.piece;
}

collect_tokens_found :
    (t : List ℕ) (fs : List Field) (tokens : List (List ℕ))
    → contains t (collect_tokens fs tokens) ≡ true
    → (contains t tokens ≡ true) ⊎ FieldOf t fs
unfolding collect_tokens
collect_tokens_found t [] tokens e = inl e
collect_tokens_found t (f ∷ fs) tokens e = elim (Bool-cases (is_connection f.name)) [
  | inr h ↦ elim (collect_tokens_found t fs tokens (rw h at e)) [
    | inl g ↦ inl g
    | inr v ↦ inr (FieldOf-cons t f fs v)
  ]
  | inl h ↦ elim (collect_tokens_found t fs _ (rw h at e)) [
    | inr v ↦ inr (FieldOf-cons t f fs v)
    | inl g ↦
        let g' = rw (token_loop-pieces (suc (length f.value)) f.value tokens (omega arith)) at g in
        elim (insert_all_found t (pieces b',' f.value) tokens g') [
          | inl k ↦ inl k
          | inr p ↦
              inr
                (record { place = 0; field = f; found = refl; is_connection_field = h; piece = p })
        ]
  ]
]

-- A piece that is the name, in any case, is blanks around it.
FieldOf-IsNamed :
    (fs : List Field) (name p core back front : List ℕ) (v : FieldOf (lowercase name) fs)
    → get_elem? (pieces b',' v.field.value) v.piece.0 ≡ some (front ++ (core ++ back))
    → IsBlank front
    → IsBlank back
    → lowercase core ≡ lowercase name
    → is_nil (lowercase core) ≡ false
    → IsSolid name
    → IsNamed fs name
FieldOf-IsNamed fs name p [] back front v g b b' e n s = cc
FieldOf-IsNamed fs name p (c ∷ core) back front v g b b' e n s = record {
  place = v.place;
  field = v.field;
  found = v.found;
  is_connection_field = v.is_connection_field;
  piece = v.piece.0;
  front = front;
  first = c;
  others = core;
  back = back;
  between = g;
  blank_front = b;
  solid = IsSolid-lowercase (c ∷ core) (subst IsSolid (sym e) (lowercase-IsSolid name s));
  blank_back = b';
  same_name = e;
}

pub contains-IsNamed :
    (fs : List Field) (name : List ℕ)
    → IsSolid name
    → contains (lowercase name) (collect_tokens fs []) ≡ true
    → IsNamed fs name
unfolding trim_http_token contains
contains-IsNamed fs name s e = elim (collect_tokens_found (lowercase name) fs [] e) [
  | inl f ↦ cc f
  | inr v ↦
      let (k, p, g, h, n) = v.piece in
      let (front, f, b) = trim_front_found p in
      let (back, f', b') = trim_back_found (trim_front p) in
      FieldOf-IsNamed fs name p (trim_back (trim_front p)) back front v
        (g ∙ ap some (f ∙ ap (λ t. front ++ t) f')) b b' h n s
]
