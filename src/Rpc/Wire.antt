-- ===== src/Rpc/Wire.antt =====
-- Errors on the wire: the type assertion to `WebRPCError` of the handlers, `sendErrorJSON`, and what
-- the client makes of an error body. `text_of` is `err.Error()`, whose texts are left out.
use quotacontrol.Prelude.{Option, none, some, [], is_empty, if◌then◌else◌}
use quotacontrol.Prelude.Text.{Text}
use quotacontrol.Proto.Errors.{
  Code, Error, sentinel, code, rpc, with_cause, received, webrpc_endpoint, http_status,
}
use quotacontrol.Rpc.{Response}

-- A `WebRPCError`: its variable, and the error inside.
pub record RpcError : Type 0 where
  pub error : Code
  pub cause : Option Error

-- `rpcErr, ok := err.(WebRPCError)`, or else `ErrWebrpcEndpoint.WithCause(err)`.
unfoldable pub rpc_error : Error → RpcError
rpc_error (sentinel (code c)) = record { error = c; cause = none }
rpc_error (with_cause c e) = record { error = c; cause = some e }
rpc_error e = record { error = webrpc_endpoint; cause = some e }

-- The JSON object of a `WebRPCError`. Its name, code, message and status stand for its variable; a
-- cause that is absent is the empty text.
pub record WireError : Type 0 where
  pub error : Code
  pub cause : Text

abbrev pub cause_text : (Error → Text) → Option Error → Text
cause_text text_of none = []
cause_text text_of (some e) = text_of e

unfoldable pub wire_error : (Error → Text) → RpcError → WireError
wire_error text_of e = record { error = e.error; cause = cause_text text_of e.cause }

-- `sendErrorJSON`, and `RespondWithError` for any error. `put` is `json.Marshal` of the object.
unfoldable pub send_error : {B : Type 0} → (Error → Text) → (WireError → B) → RpcError → Response B
unfolding wire_error
send_error text_of put e = record {
  status = http_status e.error;
  body = put (wire_error text_of e);
}

unfoldable pub respond_with_error :
    {B : Type 0} → (Error → Text) → (WireError → B) → Error → Response B
unfolding rpc_error send_error
respond_with_error text_of put e = send_error text_of put (rpc_error e)

-- The error of a decoded body: `rpcErr.cause = errors.New(rpcErr.Cause)` where that is not empty.
unfoldable pub received_error : WireError → Error
received_error e = if is_empty e.cause then rpc e.error else with_cause e.error (received e.cause)
