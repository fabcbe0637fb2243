-- ===== src/Pool/Cleanup.antt =====
-- Every idle connection is closed in time: while the pool has one, its timer is set, to no later than
-- the connection's deadline.
use c_item.Base.{
  ℕ, ◌≤◌, ◌≡◌, refl, subst, ◌∙◌, inl, inr, Bool, true, false, not, ◌||◌, Option, none, some, arith,
  if_lem, if_cases, Option-cases, length,
}
use c_item.Config.{UpstreamConfig}
use c_item.Server.{ErrorCode, failed, is_aborted}
use c_item.Pool.{
  UpstreamConnection, Views, clean, Idle, Slots, UpstreamPool, make_pool, max_idle, expire_slots,
  expire, take_slots, take_idle, take, clear_slots, stop, next_deadline, Calls, succeed,
  expires_never_throws, expires_at_throws, async_wait_throws, arm_at, arm_cleanup, stop_if, place,
  deadline_at, throws_early, discard, put_placed, put_idle, put, after_wait, on_timer, idle_count,
}
use c_item.Pool.Loops.{
  Has, Subset, length-expire_slots, length-clear_slots, idle_count-clear_slots, length-take_slots,
  take_slots-Subset, length-place, place-Has, deadline_at_mono, next_deadline_first,
  next_deadline_none, empty_slots, idle_count-expire_slots, expire_slots-Subset, clear_slots-Subset,
}

-- 32 slots, with no deadline later than that of a connection put now.
pub record Bounded (now : ℕ) (es : Slots) : Type 0 where
  pub size : length es ≡ max_idle
  pub due : (i : ℕ) (s : Idle) → Has es i s → s.deadline ≤ deadline_at now

pub record Loose (now : ℕ) (p : UpstreamPool) : Type 0 where
  pub bounded : Bounded now p.idle
  pub near : p.expiry ≤ deadline_at now
  pub emptied : p.stopped ≡ true → idle_count p.idle ≡ 0

abbrev pub Scheduled : UpstreamPool → Type 0
Scheduled p =
    (i : ℕ) (s : Idle) → Has p.idle i s → (p.timer_pending ≡ true) × (p.expiry ≤ s.deadline)

-- The invariant at a time: what `Loose` says, and, until the pool is stopped, that a timer is set in
-- time for every idle connection.
pub record Kept (now : ℕ) (p : UpstreamPool) : Type 0 where
  pub loose : Loose now p
  pub scheduled : p.stopped ≡ false → Scheduled p

Subset-Bounded :
    (now : ℕ) (es' es : Slots)
    → Bounded now es
    → length es' ≡ length es
    → Subset es' es
    → Bounded now es'
Subset-Bounded now es' es h l k = record { size = l ∙ h.size; due = λ i s g. h.due i s (k i s g) }

later-Kept : (t u : ℕ) (p : UpstreamPool) → t ≤ u → Kept t p → Kept u p
later-Kept t u p l h = record {
  loose = record {
    bounded = record {
      size = h.loose.bounded.size;
      due = λ i s g. omega (arith, h.loose.bounded.due i s g, deadline_at_mono t u l);
    };
    near = omega (arith, h.loose.near, deadline_at_mono t u l);
    emptied = h.loose.emptied;
  };
  scheduled = h.scheduled;
}

stop-Kept : (now : ℕ) (p : UpstreamPool) → Loose now p → Kept now (stop p)
unfolding stop
stop-Kept now p h =
    if_cases (Kept now) p.stopped (λ e. record { loose = h; scheduled = λ f. cc (e, f) })
      (λ e. record {
        loose = record {
          bounded =
              Subset-Bounded now (clear_slots p.idle).0 p.idle h.bounded (length-clear_slots p.idle)
                (clear_slots-Subset p.idle);
          near = h.near;
          emptied = λ f. idle_count-clear_slots p.idle;
        };
        scheduled = λ f. cc f;
      })

arm_at-Kept :
    (now : ℕ) (p : UpstreamPool) (calls : Calls) (n : Option ℕ)
    → Loose now p
    → p.stopped ≡ false
    → next_deadline none p.idle ≡ n
    → Kept now (stop_if (arm_at p calls n))
unfolding arm_at stop_if
arm_at-Kept now p calls none h e f = record {
  loose = h;
  scheduled = λ g i s k. next_deadline_none p.idle i s f k;
}
arm_at-Kept now p expires_at_throws (some d) h e f = stop-Kept now p h
arm_at-Kept now p async_wait_throws (some d) h e f =
    let (l, m) = next_deadline_first p.idle d f in
    stop-Kept now (record p { expiry = d; timer_pending = true })
      (record {
        bounded = h.bounded;
        near = m (deadline_at now) h.bounded.due;
        emptied = h.emptied;
      })
arm_at-Kept now p succeed (some d) h e f =
    let (l, m) = next_deadline_first p.idle d f in
    record {
      loose = record {
        bounded = h.bounded;
        near = m (deadline_at now) h.bounded.due;
        emptied = h.emptied;
      };
      scheduled = λ g i s k. (refl, l i s k);
    }
arm_at-Kept now p expires_never_throws (some d) h e f =
    let (l, m) = next_deadline_first p.idle d f in
    record {
      loose = record {
        bounded = h.bounded;
        near = m (deadline_at now) h.bounded.due;
        emptied = h.emptied;
      };
      scheduled = λ g i s k. (refl, l i s k);
    }

arm_cleanup-Kept :
    (now : ℕ) (p : UpstreamPool) (calls : Calls)
    → Loose now p
    → p.stopped ≡ false
    → (p.timer_pending ≡ true → Scheduled p)
    → Kept now (stop_if (arm_cleanup p calls))
unfolding arm_cleanup stop_if
arm_cleanup-Kept now p calls h e k =
    if_cases (λ (r : UpstreamPool × Bool). Kept now (stop_if r)) (p.stopped || p.timer_pending)
      (λ f. record { loose = h; scheduled = λ g. k (rw e at f) })
      (λ f. arm_at-Kept now p calls (next_deadline none p.idle) h e refl)

expire-Loose : (now t : ℕ) (p : UpstreamPool) → Loose now p → Loose now (expire p t)
unfolding expire
expire-Loose now t p h = record {
  bounded =
      Subset-Bounded now (expire_slots t p.idle).0 p.idle h.bounded (length-expire_slots t p.idle)
        (expire_slots-Subset t p.idle);
  near = h.near;
  emptied = λ e. omega (arith, h.emptied e, idle_count-expire_slots t p.idle);
}

expire-Kept : (now t : ℕ) (p : UpstreamPool) → Kept now p → Kept now (expire p t)
unfolding expire
expire-Kept now t p h = record {
  loose = expire-Loose now t p h.loose;
  scheduled = λ e i s k. h.scheduled e i s (expire_slots-Subset t p.idle i s k);
}

take_idle-Kept :
    (now : ℕ) (p : UpstreamPool) (view : Views) (b : UpstreamConfig) (c : Option ℕ)
    → p.stopped ≡ false
    → Kept now p
    → Kept now (take_idle p view b c).0
unfolding take_idle
take_idle-Kept now p view b c e h = record {
  loose = record {
    bounded =
        Subset-Bounded now (take_slots view b c p.idle).0 p.idle h.loose.bounded
          (length-take_slots view b c p.idle) (take_slots-Subset view b c p.idle);
    near = h.loose.near;
    emptied = λ f. cc (e, f);
  };
  scheduled = λ f i s k. h.scheduled f i s (take_slots-Subset view b c p.idle i s k);
}

take-Kept :
    (now : ℕ) (p : UpstreamPool) (view : Views) (b : UpstreamConfig) (c : Option ℕ)
    → Kept now p
    → Kept now (take p view b c now).0
unfolding take
take-Kept now p view b c h =
    if_cases (λ (r : UpstreamPool × Option UpstreamConnection). Kept now r.0) p.stopped (λ e. h)
      (λ e. take_idle-Kept now (expire p now) view b c e (expire-Kept now now p h))

discard-Kept :
    (now : ℕ) (p : UpstreamPool) (c : UpstreamConnection) → Kept now p → Kept now (discard p c)
discard-Kept now p c h = record {
  loose = record { bounded = h.loose.bounded; near = h.loose.near; emptied = h.loose.emptied };
  scheduled = h.scheduled;
}

module _ (now : ℕ) (p : UpstreamPool) (e : p.stopped ≡ false) (h : Kept now p) where
  placed-Loose :
      (c : UpstreamConnection) (es : Slots)
      → place p.idle (record { connection = c; deadline = deadline_at now }) ≡ some es
      → Loose now (record p { idle = es })
  placed-Loose c es f = record {
    bounded = record {
      size = length-place p.idle _ f ∙ h.loose.bounded.size;
      due = λ i s k. elim (place-Has p.idle _ i s f k) [
        | inl m ↦ h.loose.bounded.due i s m
        | inr m ↦ subst (λ s. s.deadline ≤ deadline_at now) m (omega arith)
      ];
    };
    near = h.loose.near;
    emptied = λ g. cc (e, g);
  }

  placed-Scheduled :
      (c : UpstreamConnection) (es : Slots)
      → place p.idle (record { connection = c; deadline = deadline_at now }) ≡ some es
      → p.timer_pending ≡ true
      → Scheduled (record p { idle = es })
  placed-Scheduled c es f g i s k = elim (place-Has p.idle _ i s f k) [
    | inl m ↦ h.scheduled e i s m
    | inr m ↦ (g, subst (λ s. p.expiry ≤ s.deadline) m h.loose.near)
  ]

  put_idle-Kept : (c : UpstreamConnection) (calls : Calls) → Kept now (put_idle p c calls now)
  unfolding put_idle put_placed
  put_idle-Kept c calls =
      let s : Idle = record { connection = c; deadline = deadline_at now } in
      elim (Option-cases (place p.idle s)) [
        | inl f ↦ rw (f, put_placed) (discard-Kept now p c h)
        | inr (es, f) ↦
            rw (f, put_placed)
              (if_lem (Kept now) (throws_early calls)
                (discard-Kept now (stop p) c (stop-Kept now p h.loose))
                (arm_cleanup-Kept now (record p { idle = es }) calls (placed-Loose c es f) e
                  (placed-Scheduled c es f)))
      ]

put-Kept :
    (now : ℕ) (p : UpstreamPool) (view : Views) (c : Option UpstreamConnection) (calls : Calls)
    → Kept now p
    → Kept now (put p view c calls now)
unfolding put
put-Kept now p view none calls h = h
put-Kept now p view (some c) calls h =
    if_cases (Kept now) (p.stopped || not (clean (view c.identity))) (λ e. discard-Kept now p c h)
      (λ e.
        let running : p.stopped ≡ false = ground arith in
        put_idle-Kept now (expire p now) running (expire-Kept now now p h) c calls)

on_timer-Kept :
    (now : ℕ) (p : UpstreamPool) (error : ErrorCode) (calls : Calls)
    → (p.stopped ≡ false → is_aborted error ≡ false)
    → Kept now p
    → Kept now (on_timer p error calls now)
unfolding on_timer after_wait expire
on_timer-Kept now p error calls a h =
    if_cases (Kept now) p.stopped (λ e. h)
      (λ e.
        let idle : UpstreamPool = record p { timer_pending = false } in
        let loose : Loose now idle = record {
          bounded = h.loose.bounded;
          near = h.loose.near;
          emptied = h.loose.emptied;
        } in
        if_lem (Kept now) (failed error)
          (if_cases (Kept now) (is_aborted error) (λ f. cc (a e, f))
            (λ f. stop-Kept now idle loose))
          (arm_cleanup-Kept now (expire idle now) calls (expire-Loose now now idle loose) e
            (λ f. cc f)))

-- What can happen to a pool, and when: the clock is monotonic, and the wait of the timer ends, not by
-- cancellation unless the pool was stopped, only while one is pending.
pub data Step : ℕ → UpstreamPool → ℕ → UpstreamPool → Type 0 where
  takes :
      (t u : ℕ) (p : UpstreamPool) (view : Views) (b : UpstreamConfig) (c : Option ℕ)
      → t ≤ u
      → Step t p u (take p view b c u).0
  puts :
      (t u : ℕ) (p : UpstreamPool) (view : Views) (c : Option UpstreamConnection) (calls : Calls)
      → t ≤ u
      → Step t p u (put p view c calls u)
  expires : (t u : ℕ) (p : UpstreamPool) → t ≤ u → Step t p u (expire p u)
  fires :
      (t u : ℕ) (p : UpstreamPool) (error : ErrorCode) (calls : Calls)
      → t ≤ u
      → p.timer_pending ≡ true
      → (p.stopped ≡ false → is_aborted error ≡ false)
      → Step t p u (on_timer p error calls u)
  stops : (t u : ℕ) (p : UpstreamPool) → t ≤ u → Step t p u (stop p)

pub data Reach (t : ℕ) (p : UpstreamPool) : ℕ → UpstreamPool → Type 0 where
  here : Reach t p t p
  after : (u v : ℕ) (q r : UpstreamPool) → Reach t p u q → Step u q v r → Reach t p v r

Step-Kept : {t u : ℕ} {p q : UpstreamPool} → Step t p u q → Kept t p → Kept u q
Step-Kept (takes t u p view b c l) h = take-Kept u p view b c (later-Kept t u p l h)
Step-Kept (puts t u p view c calls l) h = put-Kept u p view c calls (later-Kept t u p l h)
Step-Kept (expires t u p l) h = expire-Kept u u p (later-Kept t u p l h)
Step-Kept (fires t u p error calls l f a) h = on_timer-Kept u p error calls a (later-Kept t u p l h)
Step-Kept (stops t u p l) h = stop-Kept u p (later-Kept t u p l h).loose

make_pool-Kept : (t : ℕ) → Kept t make_pool
unfolding make_pool
make_pool-Kept t = record {
  loose = record {
    bounded = record { size = refl; due = λ i s h. empty_slots max_idle i s h };
    near = omega arith;
    emptied = λ e. cc e;
  };
  scheduled = λ e i s h. empty_slots max_idle i s h;
}

Reach-Kept :
    {t : ℕ} {p : UpstreamPool} {u : ℕ} {q : UpstreamPool} → Reach t p u q → Kept t p → Kept u q
Reach-Kept here h = h
Reach-Kept (after u v q r k s) h = Step-Kept s (Reach-Kept k h)

-- However takes, puts, expirations, timer completions with any exceptions, and a stop follow each
-- other, a new pool keeps 32 slots; while it is not stopped, it has a timer pending for every idle
-- connection that expires no later than the connection's deadline, which lies at most 30 seconds
-- ahead; and once it is stopped it has no idle connection.
pub pool-Kept : (t u : ℕ) (q : UpstreamPool) → Reach t make_pool u q → Kept u q
pool-Kept t u q k = Reach-Kept k (make_pool-Kept t)
