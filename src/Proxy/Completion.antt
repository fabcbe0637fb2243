-- ===== src/Proxy/Completion.antt =====
-- ProxyCompletionState and the two templates around it in src/http_proxy.hpp: how the handlers of one
-- exchange and its completion decide who reports the end. An action is whether it throws.
use c_item.Base.{
  ℕ, ◌+◌, ◌≤◌, ◌≡◌, ap, Bool, true, false, ◌||◌, List, [], ◌∷◌, ◌++◌, arith, if◌then◌else◌,
}
use c_item.Server.{claim}

-- What the outside sees: the completion is called, operations are cleaned up, the abort is called.
pub data Effect : Type 0 where
  completes cleans_up aborts : Effect

-- The end of an action that has thrown, which claims the exchange if it can.
unfoldable pub after_throw : Bool → Bool × List Effect
unfolding claim
after_throw state =
    let (state', first) = claim state in (state', if first then cleans_up ∷ aborts ∷ [] else [])

-- run_proxy_completion_action.
unfoldable pub run_proxy_completion_action : Bool → Bool → Bool × List Effect
unfolding claim
run_proxy_completion_action state throws =
    let (state', first) = claim state in
    (state', if first then (if throws then completes ∷ aborts ∷ [] else completes ∷ []) else [])

-- The calls of run_proxy_completion_action that a handler makes, in order.
unfoldable pub run_completions : Bool → List Bool → Bool × List Effect
unfolding run_proxy_completion_action
run_completions state [] = (state, [])
run_completions state (throws ∷ rest) =
    let (state', effects) = run_proxy_completion_action state throws in
    let (state'', effects') = run_completions state' rest in (state'', effects ++ effects')

-- run_proxy_handler_action, of a handler that completes as listed and then throws or returns.
unfoldable pub run_proxy_handler_action : Bool → List Bool → Bool → Bool × List Effect
unfolding run_completions after_throw
run_proxy_handler_action state completions throws =
    let (state', effects) = run_completions state completions in
    let (state'', effects') = after_throw state' in
    if throws then (state'', effects ++ effects') else (state', effects)

pub data Event : Type 0 where
  handles : List Bool → Bool → Event
  finishes : Bool → Event
  -- The claim of `cancel`, which calls nobody.
  cancels : Event

unfoldable pub step : Bool → Event → Bool × List Effect
step state (handles completions throws) = run_proxy_handler_action state completions throws
step state (finishes throws) = run_proxy_completion_action state throws
step state cancels = ((claim state).0, [])

unfoldable pub run : Bool → List Event → Bool × List Effect
unfolding step
run state [] = (state, [])
run state (e ∷ es) =
    let (state', effects) = step state e in
    let (state'', effects') = run state' es in (state'', effects ++ effects')

abbrev is_completes : Effect → ℕ
is_completes completes = 1
is_completes _ = 0

abbrev is_aborts : Effect → ℕ
is_aborts aborts = 1
is_aborts _ = 0

unfoldable pub completions : List Effect → ℕ
completions [] = 0
completions (e ∷ es) = is_completes e + completions es

unfoldable pub abortions : List Effect → ℕ
abortions [] = 0
abortions (e ∷ es) = is_aborts e + abortions es

completions-append :
    (xs ys : List Effect) → completions (xs ++ ys) ≡ completions xs + completions ys
unfolding completions
completions-append [] ys = omega arith
completions-append (x ∷ xs) ys = omega (arith, completions-append xs ys)

abortions-append : (xs ys : List Effect) → abortions (xs ++ ys) ≡ abortions xs + abortions ys
unfolding abortions
abortions-append [] ys = omega arith
abortions-append (x ∷ xs) ys = omega (arith, abortions-append xs ys)

-- One for an exchange that nobody has claimed.
abbrev unclaimed : Bool → ℕ
unclaimed true = 0
unclaimed false = 1

-- Each kind of report is paid for by the claim.
abbrev Paid : Bool → Bool × List Effect → Type 0
Paid state (state', effects) =
    (completions effects + unclaimed state' ≤ unclaimed state)
    × (abortions effects + unclaimed state' ≤ unclaimed state)

both-Paid :
    (state state' state'' : Bool) (xs ys : List Effect)
    → Paid state (state', xs)
    → Paid state' (state'', ys)
    → Paid state (state'', xs ++ ys)
both-Paid state state' state'' xs ys (a, b) (c, d) =
    (omega (arith, a, c, completions-append xs ys), omega (arith, b, d, abortions-append xs ys))

completion-Paid : (state throws : Bool) → Paid state (run_proxy_completion_action state throws)
unfolding run_proxy_completion_action claim completions abortions
completion-Paid true throws = (omega arith, omega arith)
completion-Paid false true = (omega arith, omega arith)
completion-Paid false false = (omega arith, omega arith)

after_throw-Paid : (state : Bool) → Paid state (after_throw state)
unfolding after_throw claim completions abortions
after_throw-Paid true = (omega arith, omega arith)
after_throw-Paid false = (omega arith, omega arith)

run_completions-Paid : (state : Bool) (cs : List Bool) → Paid state (run_completions state cs)
unfolding run_completions completions abortions
run_completions-Paid state [] = (omega arith, omega arith)
run_completions-Paid state (c ∷ cs) =
    both-Paid state _ _ _ _ (completion-Paid state c)
      (run_completions-Paid (run_proxy_completion_action state c).0 cs)

step-Paid : (state : Bool) (e : Event) → Paid state (step state e)
unfolding step run_proxy_handler_action claim completions abortions
step-Paid state (handles cs true) =
    both-Paid state _ _ _ _ (run_completions-Paid state cs)
      (after_throw-Paid (run_completions state cs).0)
step-Paid state (handles cs false) = run_completions-Paid state cs
step-Paid state (finishes throws) = completion-Paid state throws
step-Paid true cancels = (omega arith, omega arith)
step-Paid false cancels = (omega arith, omega arith)

run-Paid : (state : Bool) (es : List Event) → Paid state (run state es)
unfolding run completions abortions
run-Paid state [] = (omega arith, omega arith)
run-Paid state (e ∷ es) = both-Paid state _ _ _ _ (step-Paid state e) (run-Paid (step state e).0 es)

-- Whatever the handlers of an exchange do, complete, throw, or both, and whether it is cancelled, the
-- completion is called at most once, and the abort at most once.
pub exchange_reports_once :
    (es : List Event) → (completions (run false es).1 ≤ 1) × (abortions (run false es).1 ≤ 1)
exchange_reports_once es = let (a, b) = run-Paid false es in (omega (arith, a), omega (arith, b))

-- The claim is not lost: who takes it reports.
abbrev Told : Bool → Bool × List Effect → Type 0
Told state (state', effects) =
    unclaimed state ≤ completions effects + abortions effects + unclaimed state'

both-Told :
    (state state' state'' : Bool) (xs ys : List Effect)
    → Told state (state', xs)
    → Told state' (state'', ys)
    → Told state (state'', xs ++ ys)
both-Told state state' state'' xs ys a b =
    omega (arith, a, b, completions-append xs ys, abortions-append xs ys)

completion-Told : (state throws : Bool) → Told state (run_proxy_completion_action state throws)
unfolding run_proxy_completion_action claim completions abortions
completion-Told true throws = omega arith
completion-Told false true = omega arith
completion-Told false false = omega arith

after_throw-Told : (state : Bool) → Told state (after_throw state)
unfolding after_throw claim completions abortions
after_throw-Told true = omega arith
after_throw-Told false = omega arith

run_completions-Told : (state : Bool) (cs : List Bool) → Told state (run_completions state cs)
unfolding run_completions completions abortions
run_completions-Told state [] = omega arith
run_completions-Told state (c ∷ cs) =
    both-Told state _ _ _ _ (completion-Told state c)
      (run_completions-Told (run_proxy_completion_action state c).0 cs)

abbrev is_cancels : Event → Bool
is_cancels cancels = true
is_cancels _ = false

unfoldable pub has_cancels : List Event → Bool
has_cancels [] = false
has_cancels (e ∷ es) = is_cancels e || has_cancels es

step-Told : (state : Bool) (e : Event) → is_cancels e ≡ false → Told state (step state e)
unfolding step run_proxy_handler_action
step-Told state (handles cs true) h =
    both-Told state _ _ _ _ (run_completions-Told state cs)
      (after_throw-Told (run_completions state cs).0)
step-Told state (handles cs false) h = run_completions-Told state cs
step-Told state (finishes throws) h = completion-Told state throws
step-Told state cancels h = cc

run-Told : (state : Bool) (es : List Event) → has_cancels es ≡ false → Told state (run state es)
unfolding run has_cancels completions abortions
run-Told state [] h = omega arith
run-Told state (e ∷ es) h =
    let first : is_cancels e ≡ false = ground arith in
    let rest : has_cancels es ≡ false = ground arith in
    both-Told state _ _ _ _ (step-Told state e first) (run-Told (step state e).0 es rest)

-- An exchange that has ended, and was not cancelled, has called its completion or its abort.
pub exchange_reports :
    (es : List Event)
    → has_cancels es ≡ false
    → (run false es).0 ≡ true
    → 1 ≤ completions (run false es).1 + abortions (run false es).1
exchange_reports es h e =
    let ended : unclaimed (run false es).0 ≡ 0 = ap unclaimed e in
    omega (arith, run-Told false es h, ended)
