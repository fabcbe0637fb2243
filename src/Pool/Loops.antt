-- ===== src/Pool/Loops.antt =====
-- The loops over the slots of the pool.
use c_item.Base.{
  ℕ, zero, suc, ◌+◌, ◌≤◌, ◌≡◌, ◌⊎◌, refl, subst, sym, ap, ◌∙◌, inl, inr, Option, none, some,
  some_inj, List, [], ◌∷◌, arith, leb, if_lem, Option-cases, length, get_elem?, replicate,
}
use c_item.Config.{UpstreamConfig}
use c_item.Pool.{
  UpstreamConnection, matches, Views, clean, Idle, Slots, expire_slots, take_slots, clear_slots,
  sooner, next_deadline, place, deadline_at, idle_count,
}
use c_item.Pool.Taken.{expire_slots-get}

-- The slot `i` has the connection.
abbrev pub Has : Slots → ℕ → Idle → Type 0
Has es i s = get_elem? es i ≡ some (some s)

abbrev pub Subset : Slots → Slots → Type 0
Subset es' es = (i : ℕ) (s : Idle) → Has es' i s → Has es i s

pub length-expire_slots : (now : ℕ) (es : Slots) → length (expire_slots now es).0 ≡ length es
unfolding expire_slots
length-expire_slots now [] = refl
length-expire_slots now (none ∷ es) = ap suc (length-expire_slots now es)
length-expire_slots now (some s ∷ es) =
    if_lem (λ (r : Slots × List ℕ). length r.0 ≡ suc (length es)) (leb s.deadline now)
      (ap suc (length-expire_slots now es)) (ap suc (length-expire_slots now es))

pub length-clear_slots : (es : Slots) → length (clear_slots es).0 ≡ length es
unfolding clear_slots
length-clear_slots [] = refl
length-clear_slots (none ∷ es) = ap suc (length-clear_slots es)
length-clear_slots (some s ∷ es) = ap suc (length-clear_slots es)

pub idle_count-clear_slots : (es : Slots) → idle_count (clear_slots es).0 ≡ 0
unfolding clear_slots idle_count
idle_count-clear_slots [] = refl
idle_count-clear_slots (none ∷ es) = idle_count-clear_slots es
idle_count-clear_slots (some s ∷ es) = idle_count-clear_slots es

module _ (view : Views) (b : UpstreamConfig) (c : Option ℕ) where
  pub length-take_slots : (es : Slots) → length (take_slots view b c es).0 ≡ length es
  unfolding take_slots
  length-take_slots [] = refl
  length-take_slots (none ∷ es) = ap suc (length-take_slots es)
  length-take_slots (some s ∷ es) =
      if_lem (λ (r : Slots × List ℕ × Option UpstreamConnection). length r.0 ≡ suc (length es))
        (matches s.connection b c)
        (if_lem (λ (r : Slots × List ℕ × Option UpstreamConnection). length r.0 ≡ suc (length es))
          (clean (view s.connection.identity)) refl (ap suc (length-take_slots es)))
        (ap suc (length-take_slots es))

  cons-Subset : (e : Option Idle) (es' es : Slots) → Subset es' es → Subset (e ∷ es') (e ∷ es)
  cons-Subset e es' es h zero s g = g
  cons-Subset e es' es h (suc i) s g = h i s g

  none-Subset : (e : Option Idle) (es' es : Slots) → Subset es' es → Subset (none ∷ es') (e ∷ es)
  none-Subset e es' es h zero s g = cc
  none-Subset e es' es h (suc i) s g = h i s g

  pub take_slots-Subset : (es : Slots) → Subset (take_slots view b c es).0 es
  unfolding take_slots
  take_slots-Subset [] = λ i s g. g
  take_slots-Subset (none ∷ es) = cons-Subset none _ es (take_slots-Subset es)
  take_slots-Subset (some s ∷ es) =
      if_lem (λ (r : Slots × List ℕ × Option UpstreamConnection). Subset r.0 (some s ∷ es))
        (matches s.connection b c)
        (if_lem (λ (r : Slots × List ℕ × Option UpstreamConnection). Subset r.0 (some s ∷ es))
          (clean (view s.connection.identity)) (none-Subset (some s) es es (λ i t g. g))
          (none-Subset (some s) _ es (take_slots-Subset es)))
        (cons-Subset (some s) _ es (take_slots-Subset es))

pub length-place :
    (es : Slots) (s : Idle) {es' : Slots} → place es s ≡ some es' → length es' ≡ length es
unfolding place
length-place [] s e = cc
length-place (none ∷ es) s e = ap length (sym (some_inj e))
length-place (some t ∷ es) s e = elim (Option-cases (place es s)) [
  | inl f ↦ cc (rw f at e)
  | inr (es', f) ↦ ap length (sym (some_inj (rw f at e))) ∙ ap suc (length-place es s f)
]

pub place-Has :
    (es : Slots) (s : Idle) {es' : Slots} (i : ℕ) (t : Idle)
    → place es s ≡ some es'
    → Has es' i t
    → Has es i t ⊎ (s ≡ t)
unfolding place
place-Has [] s i t e h = cc
place-Has (none ∷ es) s zero t e h =
    inr (some_inj (some_inj (ap (λ x. get_elem? x 0) (some_inj e) ∙ h)))
place-Has (none ∷ es) s (suc i) t e h = inl (ap (λ x. get_elem? x (suc i)) (some_inj e) ∙ h)
place-Has (some u ∷ es) s zero t e h = elim (Option-cases (place es s)) [
  | inl f ↦ cc (rw f at e)
  | inr (es', f) ↦ inl (ap (λ x. get_elem? x 0) (some_inj (rw f at e)) ∙ h)
]
place-Has (some u ∷ es) s (suc i) t e h = elim (Option-cases (place es s)) [
  | inl f ↦ cc (rw f at e)
  | inr (es', f) ↦ place-Has es s i t f (ap (λ x. get_elem? x (suc i)) (some_inj (rw f at e)) ∙ h)
]

pub deadline_at_mono : (t u : ℕ) → t ≤ u → deadline_at t ≤ deadline_at u
unfolding deadline_at
deadline_at_mono t u h = ground arith

sooner-le : (n : Option ℕ) (d : ℕ) → sooner n d ≤ d
sooner-le none d = omega arith
sooner-le (some e) d = ground arith

sooner-le_given : (e d : ℕ) → sooner (some e) d ≤ e
sooner-le_given e d = ground arith

none_first :
    (es : Slots) (d : ℕ)
    → ((i : ℕ) (s : Idle) → Has es i s → d ≤ s.deadline)
    → (i : ℕ) (s : Idle) → Has (none ∷ es) i s
    → d ≤ s.deadline
none_first es d m zero s h = cc
none_first es d m (suc i) s h = m i s h

some_first :
    (es : Slots) (t : Idle) (d : ℕ)
    → d ≤ t.deadline
    → ((i : ℕ) (s : Idle) → Has es i s → d ≤ s.deadline)
    → (i : ℕ) (s : Idle) → Has (some t ∷ es) i s
    → d ≤ s.deadline
some_first es t d l m zero s h = subst (λ s. d ≤ s.deadline) (some_inj (some_inj h)) l
some_first es t d l m (suc i) s h = m i s h

-- The result of the loop is at most what it started with, and at most every deadline.
next_deadline_least :
    (es : Slots) (e : ℕ)
    → (d : ℕ) × (next_deadline (some e) es ≡ some d)
      × (d ≤ e)
      × ((i : ℕ) (s : Idle) → Has es i s → d ≤ s.deadline)
unfolding next_deadline
next_deadline_least [] e = (e, refl, omega arith, λ i s h. cc)
next_deadline_least (none ∷ es) e =
    let (d, f, l, m) = next_deadline_least es e in (d, f, l, none_first es d m)
next_deadline_least (some t ∷ es) e =
    let (d, f, l, m) = next_deadline_least es (sooner (some e) t.deadline) in
    (
      d,
      f,
      omega (arith, sooner-le_given e t.deadline),
      some_first es t d (omega (arith, sooner-le (some e) t.deadline)) m,
    )

-- The result of the loop on all the slots: the least deadline, where there is one.
pub next_deadline_first :
    (es : Slots) (d : ℕ)
    → next_deadline none es ≡ some d
    → ((i : ℕ) (s : Idle) → Has es i s → d ≤ s.deadline)
      × ((m : ℕ) → ((i : ℕ) (s : Idle) → Has es i s → s.deadline ≤ m) → d ≤ m)
unfolding next_deadline
next_deadline_first [] d e = cc
next_deadline_first (none ∷ es) d e =
    let (f, g) = next_deadline_first es d e in
    (none_first es d f, λ m h. g m (λ i s k. h (suc i) s k))
next_deadline_first (some t ∷ es) d e =
    let (d', f, l, m) = next_deadline_least es t.deadline in
    let same : d' ≡ d = some_inj (sym f ∙ e) in
    (
      some_first es t d (omega (arith, l, same)) (λ i s h. omega (arith, m i s h, same)),
      λ m' h. omega (arith, l, same, h 0 t refl),
    )

pub next_deadline_none :
    (es : Slots) (i : ℕ) (s : Idle) {P : Type 0} → next_deadline none es ≡ none → Has es i s → P
unfolding next_deadline
next_deadline_none [] i s e h = cc
next_deadline_none (none ∷ es) zero s e h = cc
next_deadline_none (none ∷ es) (suc i) s e h = next_deadline_none es i s e h
next_deadline_none (some t ∷ es) i s e h =
    let (d, f, l, m) = next_deadline_least es t.deadline in cc (e, f)

pub idle_count-expire_slots :
    (now : ℕ) (es : Slots) → idle_count (expire_slots now es).0 ≤ idle_count es
unfolding expire_slots idle_count
idle_count-expire_slots now [] = omega arith
idle_count-expire_slots now (none ∷ es) = idle_count-expire_slots now es
idle_count-expire_slots now (some s ∷ es) =
    if_lem (λ (r : Slots × List ℕ). idle_count r.0 ≤ 1 + idle_count es) (leb s.deadline now)
      (omega (arith, idle_count-expire_slots now es))
      (omega (arith, idle_count-expire_slots now es))

pub expire_slots-Subset : (now : ℕ) (es : Slots) → Subset (expire_slots now es).0 es
expire_slots-Subset now es i s h = (expire_slots-get now es i s h).0

pub clear_slots-Subset : (es : Slots) → Subset (clear_slots es).0 es
unfolding clear_slots
clear_slots-Subset [] i s h = cc
clear_slots-Subset (none ∷ es) zero s h = cc
clear_slots-Subset (none ∷ es) (suc i) s h = clear_slots-Subset es i s h
clear_slots-Subset (some t ∷ es) zero s h = cc
clear_slots-Subset (some t ∷ es) (suc i) s h = clear_slots-Subset es i s h

pub empty_slots : (n i : ℕ) (s : Idle) {P : Type 0} → Has (replicate n none) i s → P
empty_slots zero i s h = cc
empty_slots (suc n) zero s h = cc
empty_slots (suc n) (suc i) s h = empty_slots n i s h
