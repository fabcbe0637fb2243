-- ===== src/Server.antt =====
-- src/http_server_internal.hpp, with the definitions of src/http_server.cpp: the state machines that
-- the server and the application share. A boost::system::error_code is one of the codes that the
-- source compares with, or another one.
pub mod Drain
pub mod Accept
pub mod Signals
pub mod Permits
mod Examples
use c_item.Base.{ℕ, Bool, true, false, ◌&&◌, ◌||◌, not, if◌then◌else◌, ◌==◌}

pub data ErrorCode : Type 0 where
  success operation_aborted broken_pipe connection_aborted connection_reset eof : ErrorCode
  end_of_stream stream_truncated timeout body_limit header_limit need_buffer : ErrorCode
  not_connected bad_descriptor : ErrorCode
  other : ℕ → ErrorCode

-- The conversion of an error_code to bool.
abbrev pub failed : ErrorCode → Bool
failed success = false
failed _ = true

abbrev pub is_aborted : ErrorCode → Bool
is_aborted operation_aborted = true
is_aborted _ = false

abbrev pub is_disconnect : ErrorCode → Bool
is_disconnect broken_pipe = true
is_disconnect connection_aborted = true
is_disconnect connection_reset = true
is_disconnect eof = true
is_disconnect _ = false

pub data HttpWriteDisposition : Type 0 where
  written expected_cancellation client_disconnected unexpected_error : HttpWriteDisposition

pub data AcceptRetryDisposition : Type 0 where
  retry stopped fatal : AcceptRetryDisposition

pub data ServerDrainPhase : Type 0 where
  running draining force_stopping completed : ServerDrainPhase

pub data DrainTimerDisposition : Type 0 where
  ignored timed_out fatal : DrainTimerDisposition

pub data SessionPhase : Type 0 where
  handshaking reading proxying writing closing finished : SessionPhase

pub data SessionDrainDisposition : Type 0 where
  close_immediately wait_for_current ignored : SessionDrainDisposition

unfoldable pub classify_http_write_result : ErrorCode → Bool → HttpWriteDisposition
classify_http_write_result error stopping =
    if stopping || is_aborted error
    then expected_cancellation
    else if not (failed error)
    then written
    else if is_disconnect error
    then client_disconnected
    else unexpected_error

unfoldable pub classify_accept_retry_completion : ErrorCode → Bool → AcceptRetryDisposition
classify_accept_retry_completion error stopping =
    if stopping
    then AcceptRetryDisposition.stopped
    else if failed error
    then AcceptRetryDisposition.fatal
    else AcceptRetryDisposition.retry

abbrev pub is_draining : ServerDrainPhase → Bool
is_draining draining = true
is_draining _ = false

unfoldable pub classify_drain_timer_completion :
    ErrorCode → ServerDrainPhase → DrainTimerDisposition
classify_drain_timer_completion error phase =
    if not (is_draining phase)
    then DrainTimerDisposition.ignored
    else if not (failed error)
    then DrainTimerDisposition.timed_out
    else DrainTimerDisposition.fatal

unfoldable pub classify_session_drain : SessionPhase → SessionDrainDisposition
classify_session_drain handshaking = SessionDrainDisposition.close_immediately
classify_session_drain reading = SessionDrainDisposition.close_immediately
classify_session_drain proxying = SessionDrainDisposition.wait_for_current
classify_session_drain writing = SessionDrainDisposition.wait_for_current
classify_session_drain closing = SessionDrainDisposition.wait_for_current
classify_session_drain finished = SessionDrainDisposition.ignored

-- RuntimeFailureState and ProxyCompletionState: the flag afterwards, and whether the claim is new.
unfoldable pub claim : Bool → Bool × Bool
claim claimed = if claimed then (claimed, false) else (true, true)
