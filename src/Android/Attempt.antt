-- ===== src/Android/Attempt.antt =====
-- android/.../http/SyncDispatcher.kt, `runOnce`: what becomes of one request. OkHttp is a parameter: it
-- refuses to build the request, or the call ends as a `Reply` says.
use Prim.Native.String.{String}
use react_native_sync_provid.Common.{
  ℕ, Bool, true, false, ◌&&◌, ◌||◌, Option, none, some, leb, ◌==◌, max, min, if◌then◌else◌,
}
use react_native_sync_provid.Common.Int.{pos_part}
use react_native_sync_provid.Common.Text.{◌⧺◌, show}
use react_native_sync_provid.Types.Number.{Number, nan, infinity, minus_infinity, finite}
use react_native_sync_provid.Types.Sync.{RetryPolicy, SyncOptions}
use react_native_sync_provid.Types.Errors.{
  SyncErrorCode, network_error, server_error, invalid_payload, unauthorized, timeout,
}
use react_native_sync_provid.Backoff.Kotlin.{should_retry_status}
use react_native_sync_provid.Backoff.ExactKotlin.{max_long}

-- `not_built` where `buildRequest` gives null, `elapsed` where `withTimeoutOrNull` does; what
-- `execute` throws comes with its message, or what the code puts in the place of one.
pub data Reply : Type 0 where
  not_built elapsed : Reply
  socket_timeout io_error other_error : (message : String) → Reply
  responded : ℕ → Reply

pub data AttemptResult : Type 0 where
  success : (status_code : ℕ) → AttemptResult
  failure :
      (code : SyncErrorCode)
      → (message : String) → (status_code : Option ℕ) → (retryable : Bool) → AttemptResult

-- `Double.toLong()`, with what is negative as 0, since each use has a floor above that.
abbrev pub long_of : Number → ℕ
long_of nan = 0
long_of infinity = max_long
long_of minus_infinity = 0
long_of (finite z) = min (pos_part z) max_long

abbrev pub timeout_ms : SyncOptions → ℕ
timeout_ms options =
    max (elim options.request_timeout_ms [ none ↦ 30000 | some ms ↦ long_of ms ]) 1000

-- The branches on `resp.code`.
unfoldable pub response_result : RetryPolicy → ℕ → AttemptResult
response_result policy code =
    let message = "HTTP " ⧺ show code in
    if leb 200 code && leb code 299
    then success code
    else if code == 401 || code == 403
    then failure unauthorized message (some code) false
    else if should_retry_status (some code) policy
    then failure server_error message (some code) true
    else failure server_error message (some code) false

-- `policy` is read when the response is there.
unfoldable pub run_once : ℕ → String → RetryPolicy → Reply → AttemptResult
unfolding response_result
run_once ms id policy not_built =
    failure invalid_payload ("Failed to build request for item " ⧺ id) none false
run_once ms id policy elapsed = failure timeout ("Request timed out (" ⧺ show ms ⧺ "ms)") none true
run_once ms id policy (socket_timeout message) = failure timeout message none true
run_once ms id policy (io_error message) = failure network_error message none true
run_once ms id policy (other_error message) = failure network_error message none false
run_once ms id policy (responded code) = response_result policy code
