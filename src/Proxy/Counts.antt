-- ===== src/Proxy/Counts.antt =====
-- How many fields of a name a message has, and what `set` and the loops that leave fields out make of it.
use c_item.Base.{
  ℕ, zero, suc, ◌+◌, ◌≡◌, ◌⊎◌, refl, sym, ap, ◌∙◌, inl, inr, Bool, true, false, some, some_inj,
  List, [], ◌∷◌, ◌++◌, arith, if◌then◌else◌, if_cases, Bool-cases, get_elem?,
}
use c_item.Handler.{Field, FieldName}
use c_item.Proxy.{is_host, is_content_length, keep_fields, set_field, is_connection}

-- How many fields have a name.
unfoldable pub count : (FieldName → Bool) → List Field → ℕ
count named [] = 0
count named (f ∷ fs) = (if named f.name then 1 else 0) + count named fs

count-append :
    (named : FieldName → Bool) (fs : List Field) (f : Field)
    → count named (fs ++ f ∷ []) ≡ count named fs + (if named f.name then 1 else 0)
unfolding count
count-append named [] f = omega arith
count-append named (g ∷ fs) f = omega (arith, count-append named fs f)

count_gone :
    (named : FieldName → Bool) (drops : Field → Bool) (fs : List Field)
    → ((f : Field) → named f.name ≡ true → drops f ≡ true)
    → count named (keep_fields drops fs) ≡ 0
unfolding count keep_fields
count_gone named drops [] h = refl
count_gone named drops (f ∷ fs) h =
    if_cases (λ (gs : List Field). count named gs ≡ 0) (drops f) (λ e. count_gone named drops fs h)
      (λ e. elim (Bool-cases (named f.name)) [
        | inl g ↦ cc (e, h f g)
        | inr g ↦ rw g (omega (arith, count_gone named drops fs h))
      ])

count_kept :
    (named : FieldName → Bool) (drops : Field → Bool) (fs : List Field)
    → ((f : Field) → named f.name ≡ true → drops f ≡ false)
    → count named (keep_fields drops fs) ≡ count named fs
unfolding count keep_fields
count_kept named drops [] h = refl
count_kept named drops (f ∷ fs) h = elim (Bool-cases (drops f)) [
  | inr e ↦ rw e (ap (λ n. (if named f.name then 1 else 0) + n) (count_kept named drops fs h))
  | inl e ↦ elim (Bool-cases (named f.name)) [
    | inl g ↦ cc (e, h f g)
    | inr g ↦ rw (e, g) (omega (arith, count_kept named drops fs h))
  ]
]

-- The fields are those of `gs` that are not dropped.
pub kept_from :
    (drops : Field → Bool) (gs : List Field) (i : ℕ) (f : Field)
    → get_elem? (keep_fields drops gs) i ≡ some f
    → (drops f ≡ false) × (j : ℕ) × (get_elem? gs j ≡ some f)
unfolding keep_fields
kept_from drops [] i f e = cc
kept_from drops (g ∷ gs) zero f e = elim (Bool-cases (drops g)) [
  | inl h ↦ let (k, j, l) = kept_from drops gs zero f (rw h at e) in (k, suc j, l)
  | inr h ↦ let same : g ≡ f = some_inj (rw h at e) in (ap drops (sym same) ∙ h, 0, ap some same)
]
kept_from drops (g ∷ gs) (suc i) f e = elim (Bool-cases (drops g)) [
  | inl h ↦ let (k, j, l) = kept_from drops gs (suc i) f (rw h at e) in (k, suc j, l)
  | inr h ↦ let (k, j, l) = kept_from drops gs i f (rw h at e) in (k, suc j, l)
]

-- A field that is not dropped stays.
pub kept_to :
    (drops : Field → Bool) (gs : List Field) (j : ℕ) (f : Field)
    → drops f ≡ false
    → get_elem? gs j ≡ some f
    → (i : ℕ) × (get_elem? (keep_fields drops gs) i ≡ some f)
unfolding keep_fields
kept_to drops [] j f n e = cc
kept_to drops (g ∷ gs) zero f n e =
    let h : drops g ≡ false = ap drops (some_inj e) ∙ n in rw h (0, e)
kept_to drops (g ∷ gs) (suc j) f n e =
    let (i, k) = kept_to drops gs j f n e in
    elim (Bool-cases (drops g)) [ inl h ↦ rw h (i, k) | inr h ↦ rw h (suc i, k) ]

before_last :
    (fs : List Field) (g f : Field) (i : ℕ)
    → get_elem? fs i ≡ some f
    → get_elem? (fs ++ g ∷ []) i ≡ some f
before_last [] g f i e = cc
before_last (x ∷ fs) g f zero e = e
before_last (x ∷ fs) g f (suc i) e = before_last fs g f i e

last_or_before :
    (fs : List Field) (f g : Field) (i : ℕ)
    → get_elem? (fs ++ f ∷ []) i ≡ some g
    → (f ≡ g) ⊎ (get_elem? fs i ≡ some g)
last_or_before [] f g zero e = inl (some_inj e)
last_or_before [] f g (suc i) e = cc
last_or_before (x ∷ fs) f g zero e = inr e
last_or_before (x ∷ fs) f g (suc i) e = last_or_before fs f g i e

pub is_host-not-length : (f : Field) → is_host f.name ≡ true → is_content_length f.name ≡ false
is_host-not-length f h = grind arith

pub is_host-not-connection : (f : Field) → is_host f.name ≡ true → is_connection f.name ≡ false
is_host-not-connection f h = grind arith

pub is_connection-not-length :
    (f : Field) → is_connection f.name ≡ true → is_content_length f.name ≡ false
is_connection-not-length f h = grind arith

added_one : (b : Bool) → b ≡ true → ◌≡◌ {A = ℕ} (if b then 1 else 0) 1
added_one b e = rw e refl

added_none : (b : Bool) → b ≡ false → ◌≡◌ {A = ℕ} (if b then 1 else 0) 0
added_none b e = rw e refl

-- `set` leaves one field of its name, and as many of another name as there were.
module _ (named : FieldName → Bool) (f : Field) (fs : List Field) where
  pub set_field-one : named f.name ≡ true → count named (set_field named f fs) ≡ 1
  set_field-one h = omega (
    arith,
    count-append named (keep_fields (λ g. named g.name) fs) f,
    count_gone named (λ g. named g.name) fs (λ g k. k),
    added_one (named f.name) h,
  )

  pub set_field-other :
      (other : FieldName → Bool)
      → other f.name ≡ false
      → ((g : Field) → other g.name ≡ true → named g.name ≡ false)
      → count other (set_field named f fs) ≡ count other fs
  set_field-other other h apart = omega (
    arith,
    count-append other (keep_fields (λ g. named g.name) fs) f,
    count_kept other (λ g. named g.name) fs apart,
    added_none (other f.name) h,
  )

  pub set_field_from :
      (i : ℕ) (g : Field)
      → get_elem? (set_field named f fs) i ≡ some g
      → (f ≡ g) ⊎ ((j : ℕ) × (get_elem? fs j ≡ some g))
  set_field_from i g e = elim (last_or_before _ f g i e) [
    | inl h ↦ inl h
    | inr h ↦ let (a, j, k) = kept_from (λ x. named x.name) fs i g h in inr (j, k)
  ]

  pub set_field_to :
      (j : ℕ) (g : Field)
      → named g.name ≡ false
      → get_elem? fs j ≡ some g
      → (i : ℕ) × (get_elem? (set_field named f fs) i ≡ some g)
  set_field_to j g n e =
      let (i, k) = kept_to (λ x. named x.name) fs j g n e in (i, before_last _ f g i k)
