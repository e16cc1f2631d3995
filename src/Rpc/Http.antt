-- ===== src/Rpc/Http.antt =====
-- `doHTTPRequest` of proto/quotacontrol.gen.go, and what a method of the client makes of it. Sending a
-- request is a parameter, as HTTPClient is an interface.
use quotacontrol.Prelude.{ℕ, Option, none, some, nat_beq, String, not, if◌then◌else◌}
use quotacontrol.Prelude.Text.{Text, text_eq}
use quotacontrol.Exec.{Exec, Attempt, got, failed, ◌>>=◌, pure, raise, attempt, lift}
use quotacontrol.Proto.Errors.{
  Error, wrapped, with_cause, webrpc_request_failed, webrpc_bad_response,
}
use quotacontrol.Rpc.{Json, Call, CallBeside, only_value}
use quotacontrol.Rpc.Wire.{WireError, received_error}
use mathlib.Core.Option

-- A response as the client sees it: its body may fail to be read, and to be closed.
pub record Arrived (B : Type 0) : Type 0 where
  pub status : ℕ
  pub body : Attempt B
  pub close : Option Error

-- What the client uses: `HTTPClient.Do` of a POST request with a JSON body, the error of
-- `http.NewRequestWithContext` for a URL, the error of the context, and the decoding of error bodies.
pub record HttpClient (W B : Type 0) : Type 0 where
  pub send : Text → B → Exec W (Arrived B)
  pub url_error : Text → Option Error
  pub context_error : Option Error
  pub get_error : B → Attempt WireError

abbrev pub request_failed : String → Error → Error
request_failed msg e = with_cause webrpc_request_failed (wrapped msg e)

abbrev pub bad_response : String → Error → Error
bad_response msg e = with_cause webrpc_bad_response (wrapped msg e)

-- `if err != nil { return nil, … }`, for an error that may be nil.
abbrev pub raise_if {ℓ} :
    {W : Type 0} {A : Type ℓ} → (Error → Error) → Option Error → Exec W A → Exec W A
raise_if f none k = k
raise_if f (some e) k = raise (f e)

-- A fallible decoding, with an error of the client's.
abbrev pub decoding {ℓ κ} :
    {W : Type 0} {A : Type ℓ} {C : Type κ} → (Error → Error) → Attempt A → (A → Exec W C) → Exec W C
decoding f (got a) k = k a
decoding f (failed e) k = raise (f e)

module _ {W B : Type 0} (client : HttpClient W B) where
  -- What follows the arrival of a response; the body is closed on success only.
  unfoldable pub read_response : {A R : Type 0} → Json B A R → Arrived B → Exec W (R × Option Error)
  unfolding received_error
  read_response j resp =
      if not (nat_beq resp.status 200)
      then (decoding (bad_response "failed to read server error response body") resp.body λ b.
          decoding (bad_response "failed to unmarshal server error") (client.get_error b)
            λ e. raise (received_error e))
      else (decoding (bad_response "failed to read response body") resp.body λ b.
          decoding (bad_response "failed to unmarshal JSON response body") (j.get_reply b)
            λ r. pure (r, Option.map (request_failed "failed to close response body") resp.close))

  -- `doHTTPRequest`, with what its callers do with the response: the value that was decoded goes back
  -- also where the body cannot be closed. A body that decodes only in part counts as not decoded.
  unfoldable pub do_http_request :
      {A R : Type 0} → Json B A R → Text → A → Exec W (R × Option Error)
  unfolding read_response
  do_http_request j url a =
      decoding (request_failed "failed to marshal JSON body") (j.put_args a) λ b.
        raise_if (request_failed "aborted because context was done") client.context_error (
          raise_if (request_failed "could not build request") (client.url_error url) (
            attempt (client.send url b) >>= elim [
              | failed e ↦ raise (with_cause webrpc_request_failed e)
              | got resp ↦ read_response j resp
            ]))

  -- `return out.Ret0, err`: beside an error of the request stands the zero value.
  abbrev pub beside {ℓ} : {R : Type ℓ} → R → Attempt (R × Option Error) → R × Option Error
  beside zero (got r) = r
  beside zero (failed e) = (zero, some e)

  -- A method whose value counts only without an error, and one whose value goes back in any case.
  unfoldable pub call_json : {A R : Type 0} → Json B A R → Text → Call W A R
  unfolding do_http_request
  call_json j url a = do_http_request j url a >>= λ r. lift (only_value r)

  unfoldable pub call_beside : {A R : Type 0} → Json B A R → Text → R → CallBeside W A R
  unfolding do_http_request
  call_beside j url zero a = attempt (do_http_request j url a) >>= λ r. pure (beside zero r)
