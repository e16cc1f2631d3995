-- ===== src/Rpc/Faithful.antt =====
-- The calls that client.go and internal/usage.go make, over the network.
use quotacontrol.Prelude.{
  ◌≡◌, ◌≢◌, refl, Bool, String, ◌||◌, true, none, some, [], ◌++◌, nat_beq_iff, arith, ◌==◌,
}
use quotacontrol.Prelude.Text.{Text, text_eq, codes, text_beq}
use quotacontrol.Prelude.Assoc.{Assoc, lookup}
use quotacontrol.Prelude.Int.{ℤ}
use quotacontrol.Time.{Time}
use quotacontrol.Proto.Errors.{
  Code, code, code_beq, Error, rpc, with_cause, wrapped, joined, webrpc_endpoint, errors_is, ok,
  http_status,
}
use quotacontrol.Proto.Types.{Service, AccessQuota}
use quotacontrol.Rpc.{Json, JsonLaws, CallBeside, QuotaControl, Codecs, Request, path_prefix}
use quotacontrol.Rpc.Wire.{WireError, rpc_error, respond_with_error, wire_error, received_error}
use quotacontrol.Rpc.Server.{
  serve_json, routes, serve_http, answer, value_of, recovered, refuse, serve_sync_access_key_usage,
  serve_get_access_quota,
}
use quotacontrol.Rpc.MediaType.{media_type}
use quotacontrol.Rpc.Client.{url, remote_get_access_quota, remote_sync_access_key_usage}
use quotacontrol.Rpc.Http.{HttpClient, call_beside, do_http_request, read_response}
use quotacontrol.Rpc.RoundTrip.{Carries, over_wire, crossed, Travels, replied, served_json}

pub over_wire_code :
    (text_of : Error → Text) (e : Error) (c : Code)
    → errors_is (over_wire text_of e) (code c) ≡ code_beq (rpc_error e).error c
unfolding errors_is received_error wire_error rpc_error
over_wire_code text_of e c = ground arith

-- Of the codes that errors.Is finds: an error of the server that is a WebRPCError, with a cause or
-- without, has its own code at the client and not those of its cause. An error that wraps or joins
-- others has all of their codes at the server, and at the client only the endpoint's.
pub errors_is-over_wire :
    (text_of : Error → Text) (m : String) (c d : Code) (e f : Error)
    → (errors_is (over_wire text_of (rpc c)) (code d) ≡ code_beq c d)
      × (errors_is (over_wire text_of (with_cause c e)) (code d) ≡ code_beq c d)
      × (errors_is (wrapped m e) (code d) ≡ errors_is e (code d))
      × (errors_is (over_wire text_of (wrapped m e)) (code d) ≡ code_beq webrpc_endpoint d)
      × (errors_is (joined e f) (code d) ≡ errors_is e (code d) || errors_is f (code d))
      × (errors_is (over_wire text_of (joined e f)) (code d) ≡ code_beq webrpc_endpoint d)
unfolding errors_is rpc_error
errors_is-over_wire text_of m c d e f = (
  over_wire_code text_of (rpc c) d,
  over_wire_code text_of (with_cause c e) d,
  refl,
  over_wire_code text_of (wrapped m e) d,
  refl,
  over_wire_code text_of (joined e f) d,
)

-- A request that changes the server's state has the path of a method, the verb POST, and the media
-- type application/json.
pub serve_http-Guarded :
    {W B : Type 0} (text_of : Error → Text) (put_error : WireError → B) (codecs : Codecs B)
    (service : QuotaControl W) (request : Request B) (w : W)
    → (serve_http text_of put_error codecs service request w).1 ≢ w
    → (lookup request.path (routes text_of put_error codecs service) ≢ none)
      × (request.verb == codes "POST") ≡ true
      × (media_type request.content_type == codes "application/json") ≡ true
unfolding serve_http refuse
serve_http-Guarded text_of put_error codecs service request w changed = ground arith

module _ {W B : Type 0} (text_of : Error → Text) (put_error : WireError → B)
    (client : HttpClient W B) (codecs : Codecs B) (base : Text) (service : QuotaControl W)
    (net : Carries text_of put_error client codecs base service) where
  -- The values of a method that returns them beside an error: they are lost where there is one.
  replied_beside :
      {A R : Type 0} (j : Json B A R) (P : A → Type 0) (Q : R → Type 0) (laws : JsonLaws j P Q)
      (call : CallBeside W A R) (name : Text) (zero r : R) (e : Error) (a : A) (w v : W)
      → lookup (path_prefix ++ name) (routes text_of put_error codecs service)
        ≡ some (serve_json text_of put_error j λ a w. value_of (call a w))
      → P a
      → call a w ≡ (ok (r, some e), v)
      → http_status (rpc_error e).error ≢ 200
      → call_beside client j (url client codecs base name) zero a w
        ≡ (ok (zero, some (over_wire text_of e)), v)
  unfolding call_beside do_http_request read_response recovered answer respond_with_error
  replied_beside j P Q laws call name zero r e a w v route fits called bad =
      let (b, put, get) = laws.args_back a fits in
      ground (
        arith,
        net.carried name b w,
        net.live,
        net.url_fine name,
        served_json text_of put_error client codecs base service net j (λ a w. value_of (call a w))
            name a b w route get,
        net.error_back (wire_error text_of (rpc_error e)),
        nat_beq_iff (http_status (rpc_error e).error) 200,
      )

  -- A call of GetAccessQuota.
  pub remote_get_access_quota_lem :
      (P : Text × Time → Type 0) (Q : AccessQuota → Type 0)
      (laws : JsonLaws codecs.get_access_quota P Q) (a : Text × Time) (w : W)
      → P a
      → Travels Q (service.get_access_quota a w).0
      → remote_get_access_quota client codecs base a w
        ≡ crossed text_of (service.get_access_quota a w)
  unfolding remote_get_access_quota routes lookup text_beq serve_get_access_quota
  remote_get_access_quota_lem P Q laws a w fits travels =
      replied text_of put_error client codecs base service net codecs.get_access_quota P Q laws
        service.get_access_quota (codes "GetAccessQuota") a w (service.get_access_quota a w).1
        (service.get_access_quota a w).0 refl fits refl travels

  -- A call of SyncAccessKeyUsage.
  pub remote_sync_keys_lem :
      (P : Service × Time × Assoc Text ℤ → Type 0) (Q : Assoc Text Bool → Type 0)
      (laws : JsonLaws codecs.sync_access_key_usage P Q) (m : Assoc Text Bool) (e : Error)
      (a : Service × Time × Assoc Text ℤ) (w v : W)
      → P a
      → service.sync_access_key_usage a w ≡ (ok (m, some e), v)
      → http_status (rpc_error e).error ≢ 200
      → remote_sync_access_key_usage client codecs base a w
        ≡ (ok ([], some (over_wire text_of e)), v)
  unfolding remote_sync_access_key_usage routes lookup text_beq serve_sync_access_key_usage
  remote_sync_keys_lem P Q laws m e a w v fits called bad =
      replied_beside codecs.sync_access_key_usage P Q laws service.sync_access_key_usage
        (codes "SyncAccessKeyUsage") [] m e a w v refl fits called bad
