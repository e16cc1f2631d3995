-- ===== src/Proto/Errors.antt =====
-- The errors of proto/quotacontrol.gen.go: the sentinel errors with their codes and HTTP statuses,
-- the chains that `WithCause` and `fmt.Errorf("…: %w", err)` build, and `errors.Is` on them.
use quotacontrol.Prelude.{ℕ, String, Bool, true, false, ◌||◌}
use quotacontrol.Prelude.Int.{ℤ, pos, negsuc, int_beq}
use quotacontrol.Prelude.Text.{Text}

-- One constructor for each `WebRPCError` variable.
pub data Code : Type 0 where
  webrpc_endpoint webrpc_request_failed webrpc_bad_route webrpc_bad_method : Code
  webrpc_bad_request webrpc_bad_response webrpc_server_panic webrpc_internal_error : Code
  webrpc_client_aborted webrpc_stream_lost webrpc_stream_finished : Code
  unauthorized permission_denied session_expired method_not_found request_conflict : Code
  aborted geoblocked rate_limited project_not_found secret_key_cors_disallowed : Code
  invalid_scope access_key_not_found access_key_mismatch invalid_origin : Code
  invalid_service unauthorized_user invalid_chain quota_exceeded quota_rate_limit : Code
  no_default_key max_access_keys at_least_one_key timeout : Code

-- `Code: …`
unfoldable pub code_number : Code → ℤ
code_number webrpc_endpoint = pos 0
code_number webrpc_request_failed = negsuc 0
code_number webrpc_bad_route = negsuc 1
code_number webrpc_bad_method = negsuc 2
code_number webrpc_bad_request = negsuc 3
code_number webrpc_bad_response = negsuc 4
code_number webrpc_server_panic = negsuc 5
code_number webrpc_internal_error = negsuc 6
code_number webrpc_client_aborted = negsuc 7
code_number webrpc_stream_lost = negsuc 8
code_number webrpc_stream_finished = negsuc 9
code_number unauthorized = pos 1000
code_number permission_denied = pos 1001
code_number session_expired = pos 1002
code_number method_not_found = pos 1003
code_number request_conflict = pos 1004
code_number aborted = pos 1005
code_number geoblocked = pos 1006
code_number rate_limited = pos 1007
code_number project_not_found = pos 1008
code_number secret_key_cors_disallowed = pos 1009
code_number invalid_scope = pos 1010
code_number access_key_not_found = pos 1101
code_number access_key_mismatch = pos 1102
code_number invalid_origin = pos 1103
code_number invalid_service = pos 1104
code_number unauthorized_user = pos 1105
code_number invalid_chain = pos 1106
code_number quota_exceeded = pos 1200
code_number quota_rate_limit = pos 1201
code_number no_default_key = pos 1300
code_number max_access_keys = pos 1301
code_number at_least_one_key = pos 1302
code_number timeout = pos 1900

-- `HTTPStatus: …`
unfoldable pub http_status : Code → ℕ
http_status webrpc_endpoint = 400
http_status webrpc_request_failed = 400
http_status webrpc_bad_route = 404
http_status webrpc_bad_method = 405
http_status webrpc_bad_request = 400
http_status webrpc_bad_response = 500
http_status webrpc_server_panic = 500
http_status webrpc_internal_error = 500
http_status webrpc_client_aborted = 400
http_status webrpc_stream_lost = 400
http_status webrpc_stream_finished = 200
http_status unauthorized = 401
http_status permission_denied = 403
http_status session_expired = 403
http_status method_not_found = 404
http_status request_conflict = 409
http_status aborted = 400
http_status geoblocked = 451
http_status rate_limited = 429
http_status project_not_found = 401
http_status secret_key_cors_disallowed = 403
http_status invalid_scope = 403
http_status access_key_not_found = 401
http_status access_key_mismatch = 403
http_status invalid_origin = 403
http_status invalid_service = 403
http_status unauthorized_user = 403
http_status invalid_chain = 403
http_status quota_exceeded = 423
http_status quota_rate_limit = 429
http_status no_default_key = 403
http_status max_access_keys = 403
http_status at_least_one_key = 403
http_status timeout = 408

-- What `errors.Is` looks for: a `WebRPCError`, the two errors of cache.go, or `redis.Nil`.
pub data Target : Type 0 where
  code : Code → Target
  cache_ready cache_wait redis_nil : Target

pub data Error : Type 0 where
  -- the error variable itself
  sentinel : Target → Error
  -- `ErrX.WithCause(err)`, `ErrX.WithCausef(…)`
  with_cause : Code → Error → Error
  -- `fmt.Errorf("…: %w", err)`
  wrapped : String → Error → Error
  -- `errors.Join`
  joined : Error → Error → Error
  -- an error with nothing inside
  plain : String → Error
  -- `errors.New` of a text that came over the wire
  received : Text → Error

abbrev pub rpc : Code → Error
rpc c = sentinel (code c)

-- `WebRPCError.Is` between two `WebRPCError`s compares their codes.
unfoldable pub code_beq : Code → Code → Bool
code_beq a b = int_beq (code_number a) (code_number b)

unfoldable pub target_beq : Target → Target → Bool
unfolding code_beq code_number
target_beq (code a) (code b) = code_beq a b
target_beq cache_ready cache_ready = true
target_beq cache_wait cache_wait = true
target_beq redis_nil redis_nil = true
target_beq _ _ = false

-- `errors.Is(err, target)`
unfoldable pub errors_is : Error → Target → Bool
unfolding target_beq
errors_is (sentinel s) t = target_beq s t
errors_is (with_cause c e) t = target_beq (code c) t || errors_is e t
errors_is (wrapped m e) t = errors_is e t
errors_is (joined a b) t = errors_is a t || errors_is b t
errors_is (plain m) t = false
errors_is (received m) t = false

-- `err == ErrX`, with no unwrapping
unfoldable pub is_exactly : Error → Target → Bool
unfolding target_beq
is_exactly (sentinel s) t = target_beq s t
is_exactly _ t = false

-- The result of a Go function: its value, its error, or a panic.
pub data Result {ℓ} (A : Type ℓ) : Type ℓ where
  ok : A → Result A
  err : Error → Result A
  panic : Result A
