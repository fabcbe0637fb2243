-- ===== src/Load/Host/Labels.antt =====
-- The loop over a host name against its labels.
use c_item.Base.{
  ℕ, ◌+◌, ◌≤◌, ◌≡◌, refl, sym, subst, ap, ◌∙◌, ◌↔◌, ◌≢◌, List, [], ◌∷◌, ◌++◌, arith, length, Bool,
  true, false, ◌||◌, ◌&&◌, Bool-cases, inl, inr, if◌then◌else◌, if_lem, Each, ◌==◌, append_assoc,
  append-nil, length-append, ltb,
}
use c_item.Base.Text.{all_bytes}
use c_item.Base.Pieces.{pieces, prepend}
use c_item.Load.Result.{bind-eq-ok, ok_inj, Result, ok, throws, ◌>>=◌, throw_if, bad_upstream_host}
use c_item.Load.Scalar.{isalnum}
use c_item.Load.Host.{
  LabelState, initial, bad_label_end, hostname_step, hostname_loop, validate_dns_hostname,
  starts_with_byte, ends_with_byte, max_hostname_length,
}

abbrev pub name_byte : ℕ → Bool
name_byte c = isalnum c || c == b'-'

-- A label of a host name: 1 to 63 letters, digits and hyphens, with a hyphen at neither end.
abbrev pub IsLabel : List ℕ → Type 0
IsLabel s =
    (1 ≤ length s)
    × (length s ≤ 63)
    × (all_bytes name_byte s ≡ true)
    × (starts_with_byte b'-' s ≡ false)
    × (ends_with_byte b'-' s ≡ false)

-- `s` is the loop's state behind the bytes `w` of a label.
record Matches (s : LabelState) (w : List ℕ) : Type 0 where
  counted : s.label_length ≡ length w
  first : s.label_starts_with_hyphen ≡ starts_with_byte b'-' w
  last : w ≢ [] → (s.previous == b'-') ≡ ends_with_byte b'-' w
  inside : all_bytes name_byte w ≡ true

-- `w` before the first piece.
abbrev attach : List ℕ → List (List ℕ) → List (List ℕ)
attach w [] = w ∷ []
attach w (p ∷ ps) = (w ++ p) ∷ ps

ends_with_snoc : (b c : ℕ) (w : List ℕ) → ends_with_byte b (w ++ (c ∷ [])) ≡ (c == b)
unfolding ends_with_byte
ends_with_snoc b c [] = refl
ends_with_snoc b c (x ∷ []) = refl
ends_with_snoc b c (x ∷ y ∷ w) = ends_with_snoc b c (y ∷ w)

all_bytes_snoc :
    (p : ℕ → Bool) (c : ℕ) (w : List ℕ) → all_bytes p (w ++ (c ∷ [])) ≡ (all_bytes p w && p c)
unfolding all_bytes
all_bytes_snoc p c [] = ground arith
all_bytes_snoc p c (x ∷ w) = ground (arith, all_bytes_snoc p c w)

attach-prepend :
    (w : List ℕ) (c : ℕ) (ps : List (List ℕ)) → attach w (prepend c ps) ≡ attach (w ++ (c ∷ [])) ps
attach-prepend w c [] = refl
attach-prepend w c (p ∷ ps) = ap (λ q. q ∷ ps) (sym (append_assoc w (c ∷ []) p))

-- The test at the end of a label finds out whether what was read is a label.
bad_label_end_iff :
    (s : LabelState) (w : List ℕ) → Matches s w → (bad_label_end s ≡ false) ↔ IsLabel w
unfolding bad_label_end
bad_label_end_iff s [] m = ground (arith, m.counted)
bad_label_end_iff s (x ∷ w) m = ground (arith, m.counted, m.first, m.last (λ e. cc), m.inside)

-- The loop from a state on, and the test behind it.
abbrev check : LabelState → List ℕ → Result (Unit {0})
check s cs = hostname_loop s cs >>= λ s'. throw_if (bad_label_end s') bad_upstream_host

label_byte_step : LabelState → ℕ → LabelState
label_byte_step s c = record {
  label_length = s.label_length + 1;
  label_starts_with_hyphen = if s.label_length == 0 then c == b'-' else s.label_starts_with_hyphen;
  previous = c;
}

first_snoc :
    (s : LabelState) (w : List ℕ) (c : ℕ)
    → s.label_length ≡ length w
    → s.label_starts_with_hyphen ≡ starts_with_byte b'-' w
    → (label_byte_step s c).label_starts_with_hyphen ≡ starts_with_byte b'-' (w ++ (c ∷ []))
unfolding label_byte_step
first_snoc s [] c h k = ground arith
first_snoc s (x ∷ w) c h k = ground arith

Matches-snoc :
    (s : LabelState) (w : List ℕ) (c : ℕ)
    → Matches s w
    → name_byte c ≡ true
    → Matches (label_byte_step s c) (w ++ (c ∷ []))
unfolding label_byte_step
Matches-snoc s w c m h = record {
  counted = omega (arith, m.counted, length-append w (c ∷ []));
  first = first_snoc s w c m.counted m.first;
  last = λ q. sym (ends_with_snoc b'-' c w);
  inside = all_bytes_snoc name_byte c w ∙ ground (arith, m.inside);
}

abbrev after_dot : ℕ → LabelState
after_dot c = record { label_length = 0; label_starts_with_hyphen = false; previous = c }

Matches-empty : (c : ℕ) → Matches (after_dot c) []
unfolding all_bytes
Matches-empty c = record {
  counted = refl;
  first = refl;
  last = λ q. absurd (q refl);
  inside = refl;
}

throw_if_iff :
    (b : Bool) (P : Type 0)
    → ((b ≡ false) ↔ P)
    → (throw_if b bad_upstream_host ≡ ok tt) ↔ (P × Unit {0})
throw_if_iff true P h = ((λ e. cc), (λ p. cc (h.1 p.0)))
throw_if_iff false P h = ((λ e. (h.0 refl, tt)), (λ p. refl))

label_next :
    (b : Bool) (s : LabelState) (f : LabelState → Result LabelState)
    (g : LabelState → Result (Unit {0})) (P Q : Type 0)
    → ((b ≡ false) ↔ P)
    → (((f s >>= g) ≡ ok tt) ↔ Q)
    → ((((if b then throws bad_upstream_host else ok s) >>= f) >>= g) ≡ ok tt) ↔ (P × Q)
unfolding ◌>>=◌
label_next true s f g P Q h k = ((λ e. cc), (λ p. cc (h.1 p.0)))
label_next false s f g P Q h k = ((λ e. (h.0 refl, k.0 e)), (λ p. k.1 p.1))

spoilt : (w p : List ℕ) (c : ℕ) → name_byte c ≡ false → all_bytes name_byte (w ++ (c ∷ p)) ≡ false
unfolding all_bytes
spoilt [] p c h = ground arith
spoilt (x ∷ w) p c h = ground (arith, spoilt w p c h)

contradict : {b : Bool} → b ≡ true → b ≡ false → ⊥
contradict h k = cc

attach-prepend_nil : (c : ℕ) (ps : List (List ℕ)) → attach [] (prepend c ps) ≡ prepend c ps
attach-prepend_nil c [] = refl
attach-prepend_nil c (p ∷ ps) = refl

attach-pieces : (b : ℕ) (s : List ℕ) → attach [] (pieces b s) ≡ pieces b s
unfolding pieces
attach-pieces b [] = refl
attach-pieces b (c ∷ s) =
    if_lem (λ (ps : List (List ℕ)). attach [] ps ≡ ps) (c == b) refl
      (attach-prepend_nil c (pieces b s))

spoilt_pieces :
    (w : List ℕ) (c : ℕ) (ps : List (List ℕ))
    → name_byte c ≡ false
    → ¬ (Each IsLabel (attach w (prepend c ps)))
spoilt_pieces w c [] h ((lo, hi, inside, front, back), later) = contradict inside (spoilt w [] c h)
spoilt_pieces w c (p ∷ ps) h ((lo, hi, inside, front, back), later) =
    contradict inside (spoilt w p c h)

check_iff :
    (cs : List ℕ) (s : LabelState) (w : List ℕ)
    → Matches s w
    → (check s cs ≡ ok tt) ↔ Each IsLabel (attach w (pieces b'.' cs))
unfolding hostname_loop pieces hostname_step label_byte_step bad_label_end ◌>>=◌
check_iff [] s w m =
    rw (append-nil w) (throw_if_iff (bad_label_end s) (IsLabel w) (bad_label_end_iff s w m))
check_iff (c ∷ cs) s w m = elim (Bool-cases (c == b'.')) [
  | inl e ↦
      rw (e, append-nil w)
        (label_next (bad_label_end s) (after_dot c) (λ t. hostname_loop t cs)
          (λ t. throw_if (bad_label_end t) bad_upstream_host) (IsLabel w)
          (Each IsLabel (pieces b'.' cs)) (bad_label_end_iff s w m)
          (subst (λ ps. (check (after_dot c) cs ≡ ok tt) ↔ Each IsLabel ps) (attach-pieces b'.' cs)
            (check_iff cs (after_dot c) [] (Matches-empty c))))
  | inr e ↦ elim (Bool-cases (name_byte c)) [
    | inl f ↦
        rw (e, f)
          (rw (attach-prepend w c (pieces b'.' cs))
            (check_iff cs (label_byte_step s c) (w ++ (c ∷ [])) (Matches-snoc s w c m f)))
    | inr f ↦ rw (e, f) ((λ q. cc), (λ q. absurd (spoilt_pieces w c (pieces b'.' cs) f q)))
  ]
]

step_at_dot :
    (s : LabelState) (c : ℕ) {t : LabelState}
    → (c == b'.') ≡ true
    → (hostname_step s c >>= λ u. hostname_loop u []) ≡ ok t
    → bad_label_end t ≡ true
unfolding hostname_step hostname_loop bad_label_end ◌>>=◌
step_at_dot s c h e = elim (Bool-cases (bad_label_end s)) [
  | inl f ↦ cc (rw (h, f) at e)
  | inr f ↦ subst (λ t. bad_label_end t ≡ true) (ok_inj (rw (h, f) at e)) refl
]

-- A text that ends with a '.' leaves the loop at the start of a label.
ends_with_dot :
    (cs : List ℕ) (s : LabelState) {t : LabelState}
    → ends_with_byte b'.' cs ≡ true
    → hostname_loop s cs ≡ ok t
    → bad_label_end t ≡ true
unfolding hostname_loop ends_with_byte
ends_with_dot [] s h e = cc
ends_with_dot (c ∷ []) s h e = step_at_dot s c h e
ends_with_dot (c ∷ d ∷ cs) s h e =
    let (u, f, g) = bind-eq-ok (hostname_step s c) (λ v. hostname_loop v (d ∷ cs)) e in
    ends_with_dot (d ∷ cs) u h g

check-initial_iff : (s : List ℕ) → (check initial s ≡ ok tt) ↔ Each IsLabel (pieces b'.' s)
check-initial_iff s =
    subst (λ ps. (check initial s ≡ ok tt) ↔ Each IsLabel ps) (attach-pieces b'.' s)
      (check_iff s initial [] (Matches-empty 0))

dot_in_front : (s : List ℕ) → Each IsLabel (pieces b'.' s) → starts_with_byte b'.' s ≡ false
unfolding pieces
dot_in_front [] h = refl
dot_in_front (c ∷ s) h = elim (Bool-cases (c == b'.')) [
  | inl e ↦ let ((lo, hi, inside, front, back), later) = rw e at h in absurd (omega arith)
  | inr e ↦ e
]

dot_behind : (s : List ℕ) → Each IsLabel (pieces b'.' s) → ends_with_byte b'.' s ≡ false
dot_behind s h = elim (Bool-cases (ends_with_byte b'.' s)) [
  | inl e ↦
      let (t, f, g) =
        bind-eq-ok (hostname_loop initial s) (λ t. throw_if (bad_label_end t) bad_upstream_host)
          ((check-initial_iff s).1 h) in
      cc (simp (ends_with_dot s initial e f) at g)
  | inr e ↦ e
]

-- A host name that is no address is accepted exactly if it has at most 253 bytes and the pieces
-- between its dots are all labels: 1 to 63 letters, digits and hyphens, no hyphen at either end.
pub validate_dns_hostname_iff :
    (s : List ℕ)
    → (validate_dns_hostname s ≡ ok tt)
      ↔ ((length s ≤ max_hostname_length) × Each IsLabel (pieces b'.' s))
unfolding validate_dns_hostname ◌>>=◌
validate_dns_hostname_iff s =
    let unfit =
      ltb max_hostname_length (length s) || starts_with_byte b'.' s || ends_with_byte b'.' s in
    elim (Bool-cases unfit) [
      | inl e ↦
          (λ h. cc (rw e at h), λ (k, h). absurd (ground (arith, dot_in_front s h, dot_behind s h)))
      | inr e ↦ (
        λ h. (ground arith, (check-initial_iff s).0 (rw e at h)),
        λ (k, h). rw e ((check-initial_iff s).1 h),
      )
    ]
