-- ===== src/Health/Schedule/Scan.antt =====
-- What `take_due` finds: the loop looks at every slot once, from the cursor on.
use c_item.Base.{
  ℕ, zero, suc, ◌+◌, ◌-◌, ◌≤◌, ◌<◌, ◌≡◌, refl, sym, ap, subst, ◌∙◌, true, false, ◌||◌, Option, none,
  some, some_inj, inl, inr, ◌⊎◌, List, arith, max, ltb, leb, ◌==◌, if◌then◌else◌, get_elem?, set,
  length, length-set, get_elem?_bound, get_elem?_total, Bool-cases,
}
use c_item.Health.Schedule.{
  ProbeSlot, ProbeSchedule, is_due, next_cursor, scan, launch, launch_at, take_found, take_due,
  max_in_flight,
}
use c_item.Health.Schedule.Count.{IsValid, flying-set}

-- The position that the loop has reached after `j` rounds.
abbrev pub after : ℕ → ℕ → ℕ → ℕ
after n c j = if ltb (c + j) n then c + j else c + j - n

abbrev IdleAt : List ProbeSlot → ℕ → ℕ → Type 0
IdleAt slots now i = (slot : ProbeSlot) → get_elem? slots i ≡ some slot → is_due slot now ≡ false

-- The loop's outcome: the first slot that is due, or none within the rounds.
data Found (slots : List ProbeSlot) (now k c : ℕ) : ℕ × Option ℕ → Type 0 where
  nothing_due :
      (c' : ℕ)
      → c' < length slots
      → ((j : ℕ) → j < k → IdleAt slots now (after (length slots) c j))
      → Found slots now k c (c', none)
  due_at :
      (i : ℕ) (slot : ProbeSlot)
      → get_elem? slots i ≡ some slot
      → is_due slot now ≡ true
      → Found slots now k c (next_cursor (length slots) i, some i)

after_next : (n c j : ℕ) → c < n → suc j < n → after n c (suc j) ≡ after n (next_cursor n c) j
after_next n c j h k = ground arith

after_zero : (n c : ℕ) → c < n → after n c 0 ≡ c
after_zero n c h = ground arith

IdleAt-after :
    (slots : List ProbeSlot) (now k c : ℕ)
    → c < length slots
    → suc k ≤ length slots
    → IdleAt slots now c
    → ((j : ℕ) → j < k → IdleAt slots now (after (length slots) (next_cursor (length slots) c) j))
    → (j : ℕ) → j < suc k
    → IdleAt slots now (after (length slots) c j)
IdleAt-after slots now k c h l idle rest zero lt =
    subst (IdleAt slots now) (sym (after_zero (length slots) c h)) idle
IdleAt-after slots now k c h l idle rest (suc j) lt =
    subst (IdleAt slots now) (sym (after_next (length slots) c j h (omega arith)))
      (rest j (omega arith))

Found-later :
    (slots : List ProbeSlot) (now k c : ℕ) {r : ℕ × Option ℕ}
    → c < length slots
    → suc k ≤ length slots
    → IdleAt slots now c
    → Found slots now k (next_cursor (length slots) c) r
    → Found slots now (suc k) c r
Found-later slots now k c h l idle (nothing_due c' b all) =
    nothing_due c' b (IdleAt-after slots now k c h l idle all)
Found-later slots now k c h l idle (due_at i slot e d) = due_at i slot e d

next_cursor-lt : (n c : ℕ) → c < n → next_cursor n c < n
next_cursor-lt n c h = ground arith

scan-Found :
    (slots : List ProbeSlot) (now k c : ℕ)
    → c < length slots
    → k ≤ length slots
    → (r : ℕ × Option ℕ) × (scan slots now k c ≡ some r) × Found slots now k c r
unfolding scan
scan-Found slots now zero c h l = ((c, none), refl, nothing_due c h (λ j n. elim n [ ]))
scan-Found slots now (suc k) c h l =
    let (slot, e) = get_elem?_total slots c h in
    elim (Bool-cases (is_due slot now)) [
      | inl d ↦ (
        (next_cursor (length slots) c, some c),
        rw (e, scan) (rw (d, if◌then◌else◌)),
        due_at c slot e d,
      )
      | inr d ↦
          let (r, q, f) =
            scan-Found slots now k (next_cursor (length slots) c)
              (next_cursor-lt (length slots) c h) (omega arith) in
          (
            r,
            rw (e, scan) (rw (d, if◌then◌else◌) q),
            Found-later slots now k c h l (λ s f'. rw (some_inj (sym f' ∙ e)) d) f,
          )
    ]

-- Every position is reached from any cursor within as many rounds as there are slots.
round_trip : (n c i : ℕ) → c < n → i < n → (j : ℕ) × (j < n) × (after n c j ≡ i)
round_trip n c i h k = elim (Bool-cases (leb c i)) [
  | inl e ↦ (i - c, ground arith, ground arith)
  | inr e ↦ (i + n - c, ground arith, ground arith)
]

pub data Outcome (s : ProbeSchedule) (now : ℕ) : ProbeSchedule × Option ℕ → Type 0 where
  -- Stopped, or as many probes in flight as allowed: nothing changes.
  refused : (s.stopped ≡ true) ⊎ (s.active ≡ max_in_flight) → Outcome s now (s, none)
  -- No slot is due; only the cursor may have moved.
  idle :
      (c : ℕ)
      → c < max 1 (length s.slots)
      → ((i : ℕ) (slot : ProbeSlot) → get_elem? s.slots i ≡ some slot → is_due slot now ≡ false)
      → Outcome s now (record s { cursor = c }, none)
  -- A slot that is due is launched.
  launched :
      (i : ℕ) (slot : ProbeSlot)
      → get_elem? s.slots i ≡ some slot
      → is_due slot now ≡ true
      → s.stopped ≡ false
      → s.active < max_in_flight
      → Outcome s now (
        record s {
          slots = set s.slots i (launch slot now);
          cursor = next_cursor (length s.slots) i;
          active = s.active + 1;
        },
        some i,
      )

Found-Outcome :
    (s : ProbeSchedule) (now : ℕ) {r : ℕ × Option ℕ}
    → s.cursor < length s.slots
    → s.stopped ≡ false
    → s.active < max_in_flight
    → Found s.slots now (length s.slots) s.cursor r
    → (t : ProbeSchedule × Option ℕ) × (take_found s now (some r) ≡ some t) × Outcome s now t
unfolding take_found launch_at
Found-Outcome s now h p a (nothing_due c' b all) = (
  (record s { cursor = c' }, none),
  refl,
  idle c' (omega arith) (λ i slot e.
      let (j, l, q) = round_trip (length s.slots) s.cursor i h (get_elem?_bound s.slots i e) in
      all j l slot (ap (get_elem? s.slots) q ∙ e)),
)
Found-Outcome s now h p a (due_at i slot e d) = (_, rw (e, launch_at), launched i slot e d p a)

take_empty :
    (s : ProbeSchedule) (now : ℕ)
    → length s.slots ≡ 0
    → s.cursor < max 1 (length s.slots)
    → (t : ProbeSchedule × Option ℕ) × (take_found s now
          (scan s.slots now (length s.slots) s.cursor)
        ≡ some t)
      × Outcome s now t
unfolding scan take_found
take_empty s now h p = (
  (record s { cursor = s.cursor }, none),
  rw h,
  idle s.cursor p (λ i slot e. absurd (omega (arith, get_elem?_bound s.slots i e))),
)

-- `take_due` never reads a slot out of range, and its outcome is one of three: a refusal, the
-- launch of a slot that is due, or the certainty that no slot is due.
pub take_due-Outcome :
    (s : ProbeSchedule) (now : ℕ)
    → IsValid s
    → (t : ProbeSchedule × Option ℕ) × (take_due s now ≡ some t) × Outcome s now t
unfolding take_due
take_due-Outcome s now v = elim (Bool-cases (s.stopped || s.active == max_in_flight)) [
  | inl e ↦ ((s, none), rw e, refused (ground arith))
  | inr e ↦ let (t, q, o) = takes (ground arith) (ground arith) in (t, rw e q, o)
]
  where
    takes :
        s.stopped ≡ false
        → s.active < max_in_flight
        → (t : ProbeSchedule × Option ℕ) × (take_found s now
              (scan s.slots now (length s.slots) s.cursor)
            ≡ some t)
          × Outcome s now t
    takes p a = elim (Bool-cases (length s.slots == 0)) [
      | inl z ↦ take_empty s now (ground arith) v.pointed
      | inr z ↦
          let inside : s.cursor < length s.slots = ground (arith, v.pointed) in
          let (r, q, f) = scan-Found s.slots now (length s.slots) s.cursor inside (omega arith) in
          let (t, q', o) = Found-Outcome s now inside p a f in (t, rw q q', o)
    ]

pub Outcome-IsValid :
    (s : ProbeSchedule) (now : ℕ) {t : ProbeSchedule × Option ℕ}
    → IsValid s
    → Outcome s now t
    → IsValid t.0
unfolding launch
Outcome-IsValid s now v (refused h) = v
Outcome-IsValid s now v (idle c b all) = record {
  counted = v.counted;
  limited = v.limited;
  pointed = b;
}
Outcome-IsValid s now v (launched i slot e d p a) = ground (
  arith,
  flying-set s.slots i slot (launch slot now) e,
  length-set s.slots i (launch slot now),
  get_elem?_bound s.slots i e,
)

-- Taking a due probe keeps the invariant, and so never starts a fifth probe.
pub take_due-IsValid :
    (s : ProbeSchedule) (now : ℕ)
    → IsValid s
    → (t : ProbeSchedule × Option ℕ) × (take_due s now ≡ some t) × IsValid t.0
take_due-IsValid s now v =
    let (t, e, o) = take_due-Outcome s now v in (t, e, Outcome-IsValid s now v o)
