-- ===== src/Pool/Owned.antt =====
-- Who has a connection: the pool, whoever took it, or nobody because it has been destroyed.
use c_item.Base.{
  ℕ, ◌+◌, ◌≡◌, refl, sym, ap, ◌∙◌, inl, inr, Bool, true, false, not, ◌||◌, Option, none, some,
  some_inj, List, [], ◌∷◌, ◌++◌, arith, ◌==◌, if◌then◌else◌, if_lem, Bool-cases, Option-cases, leb,
}
use c_item.Config.{UpstreamConfig}
use c_item.Server.{ErrorCode, failed, is_aborted}
use c_item.Pool.{
  succeed, expires_never_throws, expires_at_throws, async_wait_throws, UpstreamConnection, matches,
  Views, clean, Idle, Slots, UpstreamPool, expire_slots, expire, take_slots, take_idle, take,
  clear_slots, stop, Calls, arm_at, arm_cleanup, next_deadline, stop_if, place, put_placed,
  put_idle, put, after_wait, on_timer, deadline_at, throws_early, discard,
}

-- One for the connection with the identity `x`.
abbrev pub is_it : ℕ → ℕ → ℕ
is_it x y = if y == x then 1 else 0

unfoldable pub held : ℕ → Slots → ℕ
held x [] = 0
held x (none ∷ es) = held x es
held x (some s ∷ es) = is_it x s.connection.identity + held x es

unfoldable pub times : ℕ → List ℕ → ℕ
times x [] = 0
times x (y ∷ ys) = is_it x y + times x ys

abbrev pub got : ℕ → Option UpstreamConnection → ℕ
got x none = 0
got x (some c) = is_it x c.identity

-- How often the pool has the connection, in a slot or destroyed.
abbrev pub accounted : ℕ → UpstreamPool → ℕ
accounted x p = held x p.idle + times x p.closed

times-append : (x : ℕ) (ys zs : List ℕ) → times x (ys ++ zs) ≡ times x ys + times x zs
unfolding times
times-append x [] zs = omega arith
times-append x (y ∷ ys) zs = omega (arith, times-append x ys zs)

module _ (x : ℕ) where
  expire_slots-held :
      (now : ℕ) (es : Slots)
      → let (es', gone) = expire_slots now es in held x es' + times x gone ≡ held x es
  unfolding expire_slots held times
  expire_slots-held now [] = refl
  expire_slots-held now (none ∷ es) = expire_slots-held now es
  expire_slots-held now (some s ∷ es) = elim (Bool-cases (leb s.deadline now)) [
    | inl f ↦ rw f (omega (arith, expire_slots-held now es))
    | inr f ↦ rw f (omega (arith, expire_slots-held now es))
  ]

  clear_slots-held :
      (es : Slots) → let (es', gone) = clear_slots es in held x es' + times x gone ≡ held x es
  unfolding clear_slots held times
  clear_slots-held [] = refl
  clear_slots-held (none ∷ es) = clear_slots-held es
  clear_slots-held (some s ∷ es) = omega (arith, clear_slots-held es)

  take_slots-held :
      (view : Views) (b : UpstreamConfig) (c : Option ℕ) (es : Slots)
      → let (es', gone, found) = take_slots view b c es in
        held x es' + times x gone + got x found ≡ held x es
  unfolding take_slots held times
  take_slots-held view b c [] = refl
  take_slots-held view b c (none ∷ es) = take_slots-held view b c es
  take_slots-held view b c (some s ∷ es) = elim (Bool-cases (matches s.connection b c)) [
    | inr f ↦ rw f (omega (arith, take_slots-held view b c es))
    | inl f ↦ elim (Bool-cases (clean (view s.connection.identity))) [
      | inl g ↦ rw (f, g) (omega arith)
      | inr g ↦ rw (f, g) (omega (arith, take_slots-held view b c es))
    ]
  ]

  place-held :
      (es : Slots) (s : Idle) {es' : Slots}
      → place es s ≡ some es'
      → held x es' ≡ held x es + is_it x s.connection.identity
  unfolding place held
  place-held [] s e = cc
  place-held (none ∷ es) s e = ap (held x) (sym (some_inj e)) ∙ omega arith
  place-held (some t ∷ es) s e = elim (Option-cases (place es s)) [
    | inl f ↦ cc (rw f at e)
    | inr (es', f) ↦ ap (held x) (sym (some_inj (rw f at e))) ∙ omega (arith, place-held es s f)
  ]

  expire-accounted : (p : UpstreamPool) (now : ℕ) → accounted x (expire p now) ≡ accounted x p
  unfolding expire
  expire-accounted p now =
      omega
        (arith, expire_slots-held now p.idle, times-append x p.closed (expire_slots now p.idle).1)

  stop-accounted : (p : UpstreamPool) → accounted x (stop p) ≡ accounted x p
  unfolding stop
  stop-accounted p = elim (Bool-cases p.stopped) [
    | inl f ↦ simp f refl
    | inr f ↦
        simp f
          (omega (arith, clear_slots-held p.idle, times-append x p.closed (clear_slots p.idle).1))
  ]

  take-accounted :
      (p : UpstreamPool) (view : Views) (b : UpstreamConfig) (c : Option ℕ) (now : ℕ)
      → let (p', found) = take p view b c now in accounted x p' + got x found ≡ accounted x p
  unfolding take take_idle
  take-accounted p view b c now = elim (Bool-cases p.stopped) [
    | inl f ↦ simp f (omega arith)
    | inr f ↦
        let q = expire p now in
        simp f (
          omega (
            arith,
            take_slots-held view b c q.idle,
            times-append x q.closed (take_slots view b c q.idle).1,
            expire-accounted p now,
          ))
  ]

  arm_at-accounted :
      (p : UpstreamPool) (calls : Calls) (d : Option ℕ)
      → accounted x (arm_at p calls d).0 ≡ accounted x p
  unfolding arm_at
  arm_at-accounted p calls none = refl
  arm_at-accounted p succeed (some d) = refl
  arm_at-accounted p expires_never_throws (some d) = refl
  arm_at-accounted p expires_at_throws (some d) = refl
  arm_at-accounted p async_wait_throws (some d) = refl

  arm_cleanup-accounted :
      (p : UpstreamPool) (calls : Calls) → accounted x (arm_cleanup p calls).0 ≡ accounted x p
  unfolding arm_cleanup
  arm_cleanup-accounted p calls = elim (Bool-cases (p.stopped || p.timer_pending)) [
    | inl f ↦ rw f refl
    | inr f ↦ rw f (arm_at-accounted p calls (next_deadline none p.idle))
  ]

  stop_if-accounted : (r : UpstreamPool × Bool) → accounted x (stop_if r) ≡ accounted x r.0
  unfolding stop_if
  stop_if-accounted (p, true) = stop-accounted p
  stop_if-accounted (p, false) = refl

  discard-accounted :
      (p : UpstreamPool) (c : UpstreamConnection)
      → accounted x (discard p c) ≡ accounted x p + got x (some c)
  unfolding times
  discard-accounted p c = omega (arith, times-append x p.closed (c.identity ∷ []))

  put_placed-accounted :
      (p : UpstreamPool) (c : UpstreamConnection) (calls : Calls) (d : ℕ)
      → accounted x (put_placed p c calls (place p.idle (record { connection = c; deadline = d })))
        ≡ accounted x p + got x (some c)
  unfolding put_placed
  put_placed-accounted p c calls d =
      let s : Idle = record { connection = c; deadline = d } in
      elim (Option-cases (place p.idle s)) [
        | inl f ↦ rw (f, put_placed) (discard-accounted p c)
        | inr (es, f) ↦ elim (Bool-cases (throws_early calls)) [
          | inl g ↦
              rw (f, g, put_placed) (omega (arith, discard-accounted (stop p) c, stop-accounted p))
          | inr g ↦
              let q = record p { idle = es } in
              rw (f, g, put_placed)
                (omega (
                  arith,
                  stop_if-accounted (arm_cleanup q calls),
                  arm_cleanup-accounted q calls,
                  place-held p.idle s f,
                ))
        ]
      ]

  put-accounted :
      (p : UpstreamPool) (view : Views) (c : Option UpstreamConnection) (calls : Calls) (now : ℕ)
      → accounted x (put p view c calls now) ≡ accounted x p + got x c
  unfolding put put_idle
  put-accounted p view none calls now = omega arith
  put-accounted p view (some c) calls now =
      elim (Bool-cases (p.stopped || not (clean (view c.identity)))) [
        | inl f ↦ rw f (discard-accounted p c)
        | inr f ↦ rw f (
            omega (
              arith,
              put_placed-accounted (expire p now) c calls (deadline_at now),
              expire-accounted p now,
            ))
      ]

  after_wait-accounted :
      (p : UpstreamPool) (error : ErrorCode) (calls : Calls) (now : ℕ)
      → accounted x (after_wait p error calls now) ≡ accounted x p
  unfolding after_wait
  after_wait-accounted p error calls now = elim (Bool-cases (failed error)) [
    | inl g ↦ elim (Bool-cases (is_aborted error)) [
      | inl h ↦ rw (g, h) refl
      | inr h ↦ rw (g, h) (stop-accounted p)
    ]
    | inr g ↦ rw g (
        omega (
          arith,
          stop_if-accounted (arm_cleanup (expire p now) calls),
          arm_cleanup-accounted (expire p now) calls,
          expire-accounted p now,
        ))
  ]

  on_timer-accounted :
      (p : UpstreamPool) (error : ErrorCode) (calls : Calls) (now : ℕ)
      → accounted x (on_timer p error calls now) ≡ accounted x p
  unfolding on_timer
  on_timer-accounted p error calls now =
      if_lem (λ q. accounted x q ≡ accounted x p) p.stopped refl
        (after_wait-accounted (record p { timer_pending = false }) error calls now)

pub data Op : Type 0 where
  takes : Views → UpstreamConfig → Option ℕ → ℕ → Op
  puts : Views → Option UpstreamConnection → Calls → ℕ → Op
  expires : ℕ → Op
  times_out : ErrorCode → Calls → ℕ → Op
  stops : Op

-- What a call hands in, and the pool and what it hands out.
abbrev pub handed_in : Op → Option UpstreamConnection
handed_in (puts view c calls now) = c
handed_in _ = none

unfoldable pub step : UpstreamPool → Op → UpstreamPool × Option UpstreamConnection
step p (takes view b c now) = take p view b c now
step p (puts view c calls now) = (put p view c calls now, none)
step p (expires now) = (expire p now, none)
step p (times_out error calls now) = (on_timer p error calls now, none)
step p stops = (stop p, none)

-- The pool after a history, and all that was handed out.
unfoldable pub run : UpstreamPool → List Op → UpstreamPool × List (Option UpstreamConnection)
run p [] = (p, [])
run p (o ∷ os) = let (p', found) = step p o in let (q, rest) = run p' os in (q, found ∷ rest)

unfoldable pub all_got : ℕ → List (Option UpstreamConnection) → ℕ
all_got x [] = 0
all_got x (c ∷ cs) = got x c + all_got x cs

unfoldable pub all_in : ℕ → List Op → ℕ
all_in x [] = 0
all_in x (o ∷ os) = got x (handed_in o) + all_in x os

step_accounted :
    (x : ℕ) (p : UpstreamPool) (o : Op)
    → accounted x (step p o).0 + got x (step p o).1 ≡ accounted x p + got x (handed_in o)
unfolding step
step_accounted x p (takes view b c now) = omega (arith, take-accounted x p view b c now)
step_accounted x p (puts view c calls now) = omega (arith, put-accounted x p view c calls now)
step_accounted x p (expires now) = omega (arith, expire-accounted x p now)
step_accounted x p (times_out error calls now) =
    omega (arith, on_timer-accounted x p error calls now)
step_accounted x p stops = omega (arith, stop-accounted x p)

-- Over any history of calls, with exceptions of the timer among them, no connection is lost or
-- doubled: as often as one was in the pool or was handed in, so often it is in a slot, or has been
-- destroyed, or was handed out.
pub run-accounted :
    (x : ℕ) (p : UpstreamPool) (os : List Op)
    → accounted x (run p os).0 + all_got x (run p os).1 ≡ accounted x p + all_in x os
unfolding run all_got all_in
run-accounted x p [] = refl
run-accounted x p (o ∷ os) = omega (arith, step_accounted x p o, run-accounted x (step p o).0 os)
