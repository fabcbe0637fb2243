-- ===== src/Metrics.antt =====
-- src/metrics.hpp and src/metrics.cpp: the counters, and what one session observes of a request. A
-- double is an element of a type with the operations that the source uses.
pub mod Render
pub mod Once
pub mod Size
mod Examples
use c_item.Base.{
  ℕ, zero, suc, ◌+◌, ◌-◌, ◌^◌, Bool, true, false, not, ◌&&◌, ◌||◌, Option, none, some, List, [],
  ◌∷◌, ltb, leb, ◌==◌, if◌then◌else◌, get_elem?, set, replicate, is_some,
}

pub data RejectionReason : Type 0 where
  rate_limit proxy_capacity buffer_capacity no_healthy_upstream : RejectionReason

pub data ProxyFailureStage : Type 0 where
  resolve connect handshake write read timeout response_too_large invalid_response :
      ProxyFailureStage

-- double, with std::isfinite, numeric_limits::max, the seconds of a time point, and std::to_chars.
pub record DoubleOps (D : Type 0) : Type 0 where
  pub zero_double : D
  pub max_double : D
  pub is_finite : D → Bool
  pub is_negative : D → Bool
  pub add : D → D → D
  pub subtract : D → D → D
  pub greater : D → D → Bool
  pub seconds_of : ℕ → D
  pub to_chars : D → List ℕ

pub record Metrics (D : Type 0) : Type 0 where
  pub responses : List ℕ
  pub rejections : List ℕ
  pub failures : List ℕ
  pub processing_count : ℕ
  pub processing_sum : D

unfoldable pub saturating_increment : ℕ → ℕ
saturating_increment value = if value == 2 ^ 64 - 1 then value else value + 1

-- A counter of an array, whose index is in range.
unfoldable pub increment_at : List ℕ → ℕ → List ℕ
unfolding saturating_increment
increment_at [] i = []
increment_at (v ∷ vs) zero = saturating_increment v ∷ vs
increment_at (v ∷ vs) (suc i) = v ∷ increment_at vs i

abbrev pub status_index : ℕ → ℕ
status_index status = if leb 100 status && leb status 599 then status - 100 else 500

-- The value of the enumerator.
abbrev pub reason_index : RejectionReason → ℕ
reason_index rate_limit = 0
reason_index proxy_capacity = 1
reason_index buffer_capacity = 2
reason_index no_healthy_upstream = 3

-- The position in failure_stages.
abbrev pub stage_index : ProxyFailureStage → ℕ
stage_index resolve = 0
stage_index connect = 1
stage_index handshake = 2
stage_index write = 3
stage_index read = 4
stage_index timeout = 5
stage_index response_too_large = 6
stage_index invalid_response = 7

module _ {D : Type 0} where
  unfoldable pub make_metrics : DoubleOps D → Metrics D
  make_metrics ops = record {
    responses = replicate 501 0;
    rejections = replicate 4 0;
    failures = replicate 8 0;
    processing_count = 0;
    processing_sum = ops.zero_double;
  }

  unfoldable pub response : Metrics D → ℕ → Metrics D
  response m status = record m { responses = increment_at m.responses (status_index status) }

  unfoldable pub rejection : Metrics D → RejectionReason → Metrics D
  rejection m reason = record m { rejections = increment_at m.rejections (reason_index reason) }

  unfoldable pub upstream_failure : Metrics D → ProxyFailureStage → Metrics D
  upstream_failure m stage = record m { failures = increment_at m.failures (stage_index stage) }

  unfoldable pub processing : DoubleOps D → Metrics D → D → Metrics D
  processing ops m seconds =
      if not (ops.is_finite seconds) || ops.is_negative seconds then m else record m {
        processing_count = saturating_increment m.processing_count;
        processing_sum =
            if ops.greater seconds (ops.subtract ops.max_double m.processing_sum)
            then ops.max_double
            else ops.add m.processing_sum seconds;
      }

pub record RequestObservation : Type 0 where
  pub started : Option ℕ
  pub excluded : Bool
  pub completed : Bool
  pub rejected : Bool
  pub failed : Bool

abbrev pub fresh : RequestObservation
fresh = record {
  started = none;
  excluded = false;
  completed = false;
  rejected = false;
  failed = false;
}

unfoldable pub exclude : RequestObservation → Bool → RequestObservation
exclude o excluded = record o { excluded = excluded }

unfoldable pub begin : RequestObservation → ℕ → RequestObservation
begin o now =
    if not (is_some o.started) && not o.completed then record o { started = some now } else o

-- What a call leaves: the observation, and the metrics, which are none for a null pointer.
abbrev pub Observed : Type 0 → Type 0
Observed D = RequestObservation × Option (Metrics D)

module _ {D : Type 0} where
  unfoldable pub process_since : DoubleOps D → Metrics D → Option ℕ → ℕ → Metrics D
  process_since ops m none now = m
  process_since ops m (some start) now =
      processing ops m (ops.subtract (ops.seconds_of now) (ops.seconds_of start))

  -- The metrics behind the test that the request is not complete.
  unfoldable pub observe_response :
      DoubleOps D → RequestObservation → Option (Metrics D) → ℕ → ℕ → Option (Metrics D)
  observe_response ops o none status now = none
  observe_response ops o (some m) status now =
      some (if not o.excluded then process_since ops (response m status) o.started now else m)

  unfoldable pub finish :
      DoubleOps D → RequestObservation → Option (Metrics D) → ℕ → ℕ → Observed D × Bool
  finish ops o m status now =
      if o.completed
      then ((o, m), false)
      else ((record o { completed = true }, observe_response ops o m status now), true)

  unfoldable pub reject : RequestObservation → Option (Metrics D) → RejectionReason → Observed D
  reject o none reason = (o, none)
  reject o (some m) reason =
      if not o.excluded && not o.completed && not o.rejected
      then (record o { rejected = true }, some (rejection m reason))
      else (o, some m)

  unfoldable pub fail_stream :
      RequestObservation → Option (Metrics D) → ProxyFailureStage → Observed D
  fail_stream o none stage = (o, none)
  fail_stream o (some m) stage =
      if not o.excluded && not o.failed
      then (record o { failed = true }, some (upstream_failure m stage))
      else (o, some m)

  unfoldable pub fail : RequestObservation → Option (Metrics D) → ProxyFailureStage → Observed D
  fail o m stage = if o.completed then (o, m) else fail_stream o m stage
