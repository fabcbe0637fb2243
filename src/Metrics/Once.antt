-- ===== src/Metrics/Once.antt =====
-- However a session reports on one request, the request is counted once.
use c_item.Base.{
  ℕ, zero, suc, ◌+◌, ◌≤◌, ◌≡◌, Bool, true, false, not, ◌&&◌, ◌||◌, ap, Option, none, some, List, [],
  ◌∷◌, arith, if_lem, if_cases, is_some,
}
use c_item.Metrics.{
  RejectionReason, ProxyFailureStage, DoubleOps, Metrics, saturating_increment, increment_at,
  status_index, reason_index, stage_index, response, rejection, upstream_failure, processing,
  RequestObservation, fresh, exclude, begin, Observed, process_since, observe_response, finish,
  reject, fail_stream, fail,
}

unfoldable pub total : List ℕ → ℕ
total [] = 0
total (v ∷ vs) = v + total vs

-- One call of a counter adds at most one, and nothing where a counter is full.
total-increment_at : (vs : List ℕ) (i : ℕ) → total (increment_at vs i) ≤ total vs + 1
unfolding total increment_at saturating_increment
total-increment_at [] i = omega arith
total-increment_at (v ∷ vs) zero = ground arith
total-increment_at (v ∷ vs) (suc i) = omega (arith, total-increment_at vs i)

-- One for what has not happened yet.
abbrev left : Bool → ℕ
left true = 0
left false = 1

pub data Call : Type 0 where
  excludes : Bool → Call
  begins : ℕ → Call
  finishes : ℕ → ℕ → Call
  rejects : RejectionReason → Call
  fails fails_stream : ProxyFailureStage → Call

abbrev is_new : Bool → ℕ
is_new true = 1
is_new false = 0

module _ {D : Type 0} where
  abbrev pub all_responses : Option (Metrics D) → ℕ
  all_responses none = 0
  all_responses (some m) = total m.responses

  abbrev pub all_rejections : Option (Metrics D) → ℕ
  all_rejections none = 0
  all_rejections (some m) = total m.rejections

  abbrev pub all_failures : Option (Metrics D) → ℕ
  all_failures none = 0
  all_failures (some m) = total m.failures

module _ {D : Type 0} (ops : DoubleOps D) where
  -- The state after a call, and how many responses it lets through.
  unfoldable pub step : Observed D → Call → Observed D × ℕ
  step (o, m) (excludes b) = ((exclude o b, m), 0)
  step (o, m) (begins now) = ((begin o now, m), 0)
  step (o, m) (finishes status now) = let (s, b) = finish ops o m status now in (s, is_new b)
  step (o, m) (rejects r) = (reject o m r, 0)
  step (o, m) (fails s) = (fail o m s, 0)
  step (o, m) (fails_stream s) = (fail_stream o m s, 0)

  unfoldable pub run : Observed D → List Call → Observed D × ℕ
  unfolding step
  run s [] = (s, 0)
  run s (c ∷ cs) = let (s', n) = step s c in let (t, k) = run s' cs in (t, n + k)

  -- What a state may still add to each count is not increased by a call.
  abbrev Paid : Observed D → Observed D × ℕ → Type 0
  Paid (o, m) ((o', m'), n) =
      (all_responses m' + left o'.completed ≤ all_responses m + left o.completed)
      × (all_rejections m' + left o'.rejected ≤ all_rejections m + left o.rejected)
      × (all_failures m' + left o'.failed ≤ all_failures m + left o.failed)
      × (n + left o'.completed ≤ left o.completed)

  process_since_counts :
      (m : Metrics D) (t : Option ℕ) (now : ℕ)
      → (total (process_since ops m t now).responses ≤ total m.responses)
        × (total (process_since ops m t now).rejections ≤ total m.rejections)
        × (total (process_since ops m t now).failures ≤ total m.failures)
  unfolding process_since processing
  process_since_counts m none now = (omega arith, omega arith, omega arith)
  process_since_counts m (some start) now =
      if_lem
        (λ (r : Metrics D).
          (total r.responses ≤ total m.responses)
          × (total r.rejections ≤ total m.rejections)
          × (total r.failures ≤ total m.failures))
        (not (ops.is_finite _) || ops.is_negative _) (omega arith, omega arith, omega arith)
        (omega arith, omega arith, omega arith)

  observe_response_counts :
      (o : RequestObservation) (m : Option (Metrics D)) (status now : ℕ)
      → let m' = observe_response ops o m status now in
        (all_responses m' ≤ all_responses m + 1)
        × (all_rejections m' ≤ all_rejections m)
        × (all_failures m' ≤ all_failures m)
  unfolding observe_response response
  observe_response_counts o none status now = (omega arith, omega arith, omega arith)
  observe_response_counts o (some m) status now =
      let (a, b, c) = process_since_counts (response m status) o.started now in
      if_lem
        (λ (r : Metrics D).
          (total r.responses ≤ total m.responses + 1)
          × (total r.rejections ≤ total m.rejections)
          × (total r.failures ≤ total m.failures))
        (not o.excluded)
        (omega (arith, a, total-increment_at m.responses (status_index status)), b, c)
        (omega arith, omega arith, omega arith)

  finish-Paid :
      (o : RequestObservation) (m : Option (Metrics D)) (status now : ℕ)
      → Paid (o, m) (step (o, m) (finishes status now))
  unfolding step finish
  finish-Paid o m status now =
      if_cases (λ (t : Observed D × Bool). Paid (o, m) (t.0, is_new t.1)) o.completed
        (λ e. (omega arith, omega arith, omega arith, omega arith))
        (λ e.
          let unspent : left o.completed ≡ 1 = ap left e in
          let (a, b, c) = observe_response_counts o m status now in
          (omega (arith, a, unspent), omega (arith, b), omega (arith, c), omega (arith, unspent)))

  reject-Paid :
      (o : RequestObservation) (m : Option (Metrics D)) (r : RejectionReason)
      → Paid (o, m) (reject o m r, 0)
  unfolding reject rejection
  reject-Paid o none r = (omega arith, omega arith, omega arith, omega arith)
  reject-Paid o (some m) r =
      if_cases (λ (t : Observed D). Paid (o, some m) (t, 0))
        (not o.excluded && not o.completed && not o.rejected)
        (λ e.
          let untouched : o.rejected ≡ false = ground arith in
          let unspent : left o.rejected ≡ 1 = ap left untouched in
          (
            omega arith,
            omega (arith, unspent, total-increment_at m.rejections (reason_index r)),
            omega arith,
            omega arith,
          ))
        (λ e. (omega arith, omega arith, omega arith, omega arith))

  fail_stream-Paid :
      (o : RequestObservation) (m : Option (Metrics D)) (s : ProxyFailureStage)
      → Paid (o, m) (fail_stream o m s, 0)
  unfolding fail_stream upstream_failure
  fail_stream-Paid o none s = (omega arith, omega arith, omega arith, omega arith)
  fail_stream-Paid o (some m) s =
      if_cases (λ (t : Observed D). Paid (o, some m) (t, 0)) (not o.excluded && not o.failed)
        (λ e.
          let untouched : o.failed ≡ false = ground arith in
          let unspent : left o.failed ≡ 1 = ap left untouched in
          (
            omega arith,
            omega arith,
            omega (arith, unspent, total-increment_at m.failures (stage_index s)),
            omega arith,
          ))
        (λ e. (omega arith, omega arith, omega arith, omega arith))

  step-Paid : (s : Observed D) (c : Call) → Paid s (step s c)
  unfolding step exclude begin fail
  step-Paid (o, m) (excludes b) = (omega arith, omega arith, omega arith, omega arith)
  step-Paid (o, m) (begins now) =
      if_lem (λ (r : RequestObservation). Paid (o, m) ((r, m), 0))
        (not (is_some o.started) && not o.completed)
        (omega arith, omega arith, omega arith, omega arith)
        (omega arith, omega arith, omega arith, omega arith)
  step-Paid (o, m) (finishes status now) = finish-Paid o m status now
  step-Paid (o, m) (rejects r) = reject-Paid o m r
  step-Paid (o, m) (fails s) =
      if_lem (λ (t : Observed D). Paid (o, m) (t, 0)) o.completed
        (omega arith, omega arith, omega arith, omega arith) (fail_stream-Paid o m s)
  step-Paid (o, m) (fails_stream s) = fail_stream-Paid o m s

  run-Paid : (s : Observed D) (cs : List Call) → Paid s (run s cs)
  unfolding run
  run-Paid (o, m) [] = (omega arith, omega arith, omega arith, omega arith)
  run-Paid (o, m) (c ∷ cs) =
      let (a, b, d, e) = step-Paid (o, m) c in
      let (a', b', d', e') = run-Paid (step (o, m) c).0 cs in
      (omega (arith, a, a'), omega (arith, b, b'), omega (arith, d, d'), omega (arith, e, e'))

  -- Whatever a session reports of one request, and in whatever order, one response is let through at
  -- most, and the counters grow by one response, one rejection and one upstream failure at most.
  pub observation_once :
      (m : Option (Metrics D)) (cs : List Call)
      → let ((o, m'), responses) = run (fresh, m) cs in
        (responses ≤ 1)
        × (all_responses m' ≤ all_responses m + 1)
        × (all_rejections m' ≤ all_rejections m + 1)
        × (all_failures m' ≤ all_failures m + 1)
  observation_once m cs =
      let (a, b, c, d) = run-Paid (fresh, m) cs in
      (omega (arith, d), omega (arith, a), omega (arith, b), omega (arith, c))
