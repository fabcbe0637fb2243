-- ===== src/Admission/Capacity.antt =====
-- Taking capacity for a proxy, and giving it back.
use c_item.Base.{
  ℕ, ◌+◌, ◌-◌, ◌≤◌, ◌<◌, ◌≡◌, ◌≢◌, refl, sym, ap, ◌∙◌, inl, inr, true, false, none, some, arith,
  leb, ltb, ◌==◌, ==_iff, Bool-cases,
}
use c_item.Server.Permits
use c_item.Server.Permits.{States, ProxyAdmissionState, Permit}

unfoldable pub acquired : States → ℕ → States
acquired h p =
    Permits.update h p
      (record { max_proxies = (h p).max_proxies; active_proxies = (h p).active_proxies + 1 })

pub try_acquire_full :
    (h : States) (p : ℕ)
    → (h p).max_proxies ≤ (h p).active_proxies
    → Permits.try_acquire h (some p) ≡ (h, none)
unfolding Permits.try_acquire
try_acquire_full h p e = ground arith

pub try_acquire_free :
    (h : States) (p : ℕ)
    → (h p).active_proxies < (h p).max_proxies
    → Permits.try_acquire h (some p) ≡ (acquired h p, some (some p))
unfolding Permits.try_acquire acquired
try_acquire_free h p e =
    let f : leb (h p).max_proxies (h p).active_proxies ≡ false = ground arith in rw f refl

module _ (h : States) (p : ℕ) where
  pub acquired_self : (acquired h p p).active_proxies ≡ (h p).active_proxies + 1
  unfolding acquired
  acquired_self = rw ((==_iff p p).1 refl) refl

  pub acquired_others : (q : ℕ) → q ≢ p → acquired h p q ≡ h q
  unfolding acquired
  acquired_others q e = elim (Bool-cases (q == p)) [
    | inl f ↦ absurd (e ((==_iff q p).0 f))
    | inr f ↦ rw f refl
  ]

  release_state_suc :
      (m n : ℕ)
      → Permits.release_state (record { max_proxies = m; active_proxies = n + 1 })
        ≡ record { max_proxies = m; active_proxies = n }
  unfolding Permits.release_state
  release_state_suc m n =
      let f : ltb 0 (n + 1) ≡ true = ground arith in
      let g : n + 1 - 1 ≡ n = omega arith in rw (f, g) refl

  pub release-acquired : (q : ℕ) → (Permits.release (acquired h p) (some p)).0 q ≡ h q
  unfolding acquired Permits.release
  release-acquired q = elim (Bool-cases (q == p)) [
    | inl f ↦
        let g : q ≡ p = (==_iff q p).0 f in
        rw (f, (==_iff p p).1 refl)
          (release_state_suc (h p).max_proxies (h p).active_proxies ∙ ap h (sym g))
    | inr f ↦ rw f refl
  ]
