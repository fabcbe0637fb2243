-- ===== src/Pool/Taken.antt =====
-- What `take` hands out, and when it hands out nothing.
use c_item.Base.{
  ℕ, zero, suc, ◌<◌, ◌≡◌, refl, subst, sym, inl, inr, true, false, Option, none, some, some_inj, [],
  ◌∷◌, arith, Bool-cases, leb, get_elem?,
}
use c_item.Config.{UpstreamConfig}
use c_item.Pool.{
  UpstreamConnection, matches, Views, clean, Idle, Slots, UpstreamPool, expire_slots, expire,
  take_slots, take_idle, take,
}

-- What is left after `expire` was there before, and its deadline is to come.
pub expire_slots-get :
    (now : ℕ) (es : Slots) (i : ℕ) (s : Idle)
    → get_elem? (expire_slots now es).0 i ≡ some (some s)
    → (get_elem? es i ≡ some (some s)) × (now < s.deadline)
unfolding expire_slots
expire_slots-get now [] i s e = cc
expire_slots-get now (none ∷ es) zero s e = cc
expire_slots-get now (none ∷ es) (suc i) s e = expire_slots-get now es i s e
expire_slots-get now (some t ∷ es) zero s e = elim (Bool-cases (leb t.deadline now)) [
  | inl f ↦ cc (rw f at e)
  | inr f ↦
      let g : some (some t) ≡ some (some s) = rw f at e in
      let b : now < t.deadline = ground arith in
      (g, subst (λ s. now < s.deadline) (some_inj (some_inj g)) b)
]
expire_slots-get now (some t ∷ es) (suc i) s e = elim (Bool-cases (leb t.deadline now)) [
  | inl f ↦ expire_slots-get now es i s (rw f at e)
  | inr f ↦ expire_slots-get now es i s (rw f at e)
]

get-expire_slots :
    (now : ℕ) (es : Slots) (i : ℕ) (s : Idle)
    → get_elem? es i ≡ some (some s)
    → now < s.deadline
    → get_elem? (expire_slots now es).0 i ≡ some (some s)
unfolding expire_slots
get-expire_slots now [] i s e h = cc
get-expire_slots now (none ∷ es) zero s e h = cc
get-expire_slots now (none ∷ es) (suc i) s e h = get-expire_slots now es i s e h
get-expire_slots now (some t ∷ es) zero s e h =
    let g : leb t.deadline now ≡ false =
      subst (λ s. leb s.deadline now ≡ false) (sym (some_inj (some_inj e))) (ground arith) in
    rw g e
get-expire_slots now (some t ∷ es) (suc i) s e h = elim (Bool-cases (leb t.deadline now)) [
  | inl f ↦ rw f (get-expire_slots now es i s e h)
  | inr f ↦ rw f (get-expire_slots now es i s e h)
]

module _ (view : Views) (b : UpstreamConfig) (c : Option ℕ) where
  -- A slot whose connection may be handed out.
  pub record Fit (s : Idle) : Type 0 where
    pub same_target : matches s.connection b c ≡ true
    pub silent : clean (view s.connection.identity) ≡ true

  abbrev Found : Slots → UpstreamConnection → Type 0
  Found es conn =
      (i : ℕ) × (s : Idle) × (get_elem? es i ≡ some (some s)) × (s.connection ≡ conn) × Fit s

  later-Found :
      {e : Option Idle} (es : Slots) (conn : UpstreamConnection)
      → Found es conn
      → Found (e ∷ es) conn
  later-Found es conn (i, s, g, q, f) = (suc i, s, g, q, f)

  take_slots-Found :
      (es : Slots) (conn : UpstreamConnection)
      → (take_slots view b c es).2 ≡ some conn
      → Found es conn
  unfolding take_slots
  take_slots-Found [] conn e = cc
  take_slots-Found (none ∷ es) conn e = later-Found es conn (take_slots-Found es conn e)
  take_slots-Found (some s ∷ es) conn e = elim (Bool-cases (matches s.connection b c)) [
    | inr f ↦ later-Found es conn (take_slots-Found es conn (rw f at e))
    | inl f ↦ elim (Bool-cases (clean (view s.connection.identity))) [
      | inl g ↦ (0, s, refl, some_inj (rw (f, g) at e), record { same_target = f; silent = g })
      | inr g ↦ later-Found es conn (take_slots-Found es conn (rw (f, g) at e))
    ]
  ]

  take_slots-none :
      (es : Slots) (i : ℕ) (s : Idle)
      → (take_slots view b c es).2 ≡ none
      → get_elem? es i ≡ some (some s)
      → matches s.connection b c ≡ true
      → clean (view s.connection.identity) ≡ false
  unfolding take_slots
  take_slots-none [] i s e g m = cc
  take_slots-none (none ∷ es) zero s e g m = cc
  take_slots-none (none ∷ es) (suc i) s e g m = take_slots-none es i s e g m
  take_slots-none (some t ∷ es) zero s e g m =
      let unclean : matches t.connection b c ≡ true → clean (view t.connection.identity) ≡ false =
        λ f. elim (Bool-cases (clean (view t.connection.identity))) [
          | inl h ↦ cc (rw (f, h) at e)
          | inr h ↦ h
        ] in
      subst (λ s. matches s.connection b c ≡ true → clean (view s.connection.identity) ≡ false)
        (some_inj (some_inj g)) unclean m
  take_slots-none (some t ∷ es) (suc i) s e g m = elim (Bool-cases (matches t.connection b c)) [
    | inr f ↦ take_slots-none es i s (rw f at e) g m
    | inl f ↦ elim (Bool-cases (clean (view t.connection.identity))) [
      | inl h ↦ cc (rw (f, h) at e)
      | inr h ↦ take_slots-none es i s (rw (f, h) at e) g m
    ]
  ]

  -- Whatever `take` hands out was idle, in a pool that is not stopped, before its deadline; it has the
  -- host, port, scheme and TLS context asked for, and its socket is open with nothing to read.
  pub take_sound :
      (p : UpstreamPool) (now : ℕ) (conn : UpstreamConnection)
      → (take p view b c now).1 ≡ some conn
      → (p.stopped ≡ false)
        × (i : ℕ) × (s : Idle) × (get_elem? p.idle i ≡ some (some s))
        × (s.connection ≡ conn)
        × (now < s.deadline)
        × (matches conn b c ≡ true)
        × (clean (view conn.identity) ≡ true)
  unfolding take take_idle expire
  take_sound p now conn e = elim (Bool-cases p.stopped) [
    | inl f ↦ cc (rw (f, take) at e)
    | inr f ↦
        let (i, s, g, q, fit) =
          take_slots-Found (expire_slots now p.idle).0 conn (rw (f, take) at e) in
        let (g', before) = expire_slots-get now p.idle i s g in
        (
          f,
          i,
          s,
          g',
          q,
          before,
          subst (λ x. matches x b c ≡ true) q fit.same_target,
          subst (λ x. clean (view x.identity) ≡ true) q fit.silent,
        )
  ]

  -- Where `take` hands out nothing though the pool is not stopped, no idle connection that is before
  -- its deadline and matches is clean.
  pub take_complete :
      (p : UpstreamPool) (now i : ℕ) (s : Idle)
      → p.stopped ≡ false
      → (take p view b c now).1 ≡ none
      → get_elem? p.idle i ≡ some (some s)
      → now < s.deadline
      → matches s.connection b c ≡ true
      → clean (view s.connection.identity) ≡ false
  unfolding take take_idle expire
  take_complete p now i s f e g h m =
      take_slots-none (expire_slots now p.idle).0 i s (rw (f, take) at e)
        (get-expire_slots now p.idle i s g h) m
