-- ===== src/Rpc/RoundTrip.antt =====
-- A call of the RPC client that reaches the RPC server.
use quotacontrol.Prelude.{◌≡◌, ◌≢◌, refl, true, false, none, some, ◌++◌, nat_beq_iff, ◌==◌, arith}
use quotacontrol.Prelude.Text.{Text, text_eq, codes, text_beq}
use quotacontrol.Prelude.Assoc.{lookup}
use quotacontrol.Exec.{got}
use quotacontrol.Proto.Errors.{Error, Result, ok, err, panic, http_status}
use quotacontrol.Rpc.{Json, JsonLaws, QuotaControl, Codecs, Request, Response, path_prefix}
use quotacontrol.Rpc.Wire.{WireError, rpc_error, wire_error, respond_with_error, received_error}
use quotacontrol.Rpc.Server.{answer, serve_json, routes, recovered, serve_http}
use quotacontrol.Rpc.MediaType.{media_type}
use quotacontrol.Rpc.Client.{url}
use quotacontrol.Rpc.Http.{Arrived, HttpClient, read_response, do_http_request, call_json}

-- The request that the client builds for a method, as the server sees it.
abbrev pub post : {B : Type 0} → Text → B → Request B
post name b = record {
  verb = codes "POST";
  path = path_prefix ++ name;
  content_type = codes "application/json";
  body = got b;
}

abbrev pub arrived : {B : Type 0} → Response B → Arrived B
arrived r = record { status = r.status; body = got r.body; close = none }

-- The network between the two works: what the server writes without a panic is what the client gets.
pub record Carries {W B : Type 0} (text_of : Error → Text) (put_error : WireError → B)
    (client : HttpClient W B) (codecs : Codecs B) (base : Text) (service : QuotaControl W)
    : Type 0 where
  pub error_back : (e : WireError) → client.get_error (put_error e) ≡ got e
  pub live : client.context_error ≡ none
  pub url_fine : (name : Text) → client.url_error (base ++ (path_prefix ++ name)) ≡ none
  pub carried :
      (name : Text) (b : B) (w : W)
      → let served = serve_http text_of put_error codecs service (post name b) w in
        served.0.panics ≡ false
        → client.send (base ++ (path_prefix ++ name)) b w
          ≡ (ok (arrived served.0.response), served.1)

-- An error of the server as the client gets it.
abbrev pub over_wire : (Error → Text) → Error → Error
over_wire text_of e = received_error (wire_error text_of (rpc_error e))

abbrev pub crossed {ℓ} : {W : Type 0} {R : Type ℓ} → (Error → Text) → Result R × W → Result R × W
crossed text_of (ok r, w) = (ok r, w)
crossed text_of (err e, w) = (err (over_wire text_of e), w)
crossed text_of (panic, w) = (panic, w)

-- A result that an HTTP response can carry: a reply in `Q`, or an error whose status is not 200.
abbrev pub Travels : {R : Type 0} → (R → Type 0) → Result R → Type 0
Travels Q (ok r) = Q r
Travels Q (err e) = http_status (rpc_error e).error ≢ 200
Travels Q panic = ⊥

media_json : (media_type (codes "application/json") == codes "application/json") ≡ true
unfolding media_type text_beq
media_json = refl

post_verb : (codes "POST" == codes "POST") ≡ true
unfolding text_beq
post_verb = refl

module _ {W B : Type 0} (text_of : Error → Text) (put_error : WireError → B)
    (client : HttpClient W B) (codecs : Codecs B) (base : Text) (service : QuotaControl W)
    (net : Carries text_of put_error client codecs base service) where
  -- The server's answer to a request of the client.
  pub served_json :
      {A R : Type 0} (j : Json B A R) (call : A → W → Result R × W) (name : Text) (a : A) (b : B)
      (w : W)
      → lookup (path_prefix ++ name) (routes text_of put_error codecs service)
        ≡ some (serve_json text_of put_error j call)
      → j.get_args b ≡ got a
      → serve_http text_of put_error codecs service (post name b) w
        ≡ recovered text_of put_error codecs service (answer text_of put_error j (call a w))
  unfolding serve_http serve_json
  served_json j call name a b w route args = ground (arith, media_json, post_verb)

  -- Over a network that carries what the server writes, with arguments and replies that are decoded
  -- as they were encoded, for a path whose handler decodes, calls and answers, and a call that does
  -- not panic and does not fail with an error of HTTP status 200: the client's call ends as the
  -- call of the server itself does, with the same state and reply, or with its error as it is read
  -- from the wire.
  pub replied :
      {A R : Type 0} (j : Json B A R) (P : A → Type 0) (Q : R → Type 0) (laws : JsonLaws j P Q)
      (call : A → W → Result R × W) (name : Text) (a : A) (w v : W) (r : Result R)
      → lookup (path_prefix ++ name) (routes text_of put_error codecs service)
        ≡ some (serve_json text_of put_error j call)
      → P a
      → call a w ≡ (r, v)
      → Travels Q r
      → call_json client j (url client codecs base name) a w ≡ crossed text_of (r, v)
  unfolding call_json do_http_request read_response recovered answer respond_with_error
  replied j P Q laws call name a w v (ok r) route fits called travels =
      let (b, put, get) = laws.args_back a fits in
      let (d, put', get') = laws.reply_back r travels in
      ground (
        arith,
        served_json j call name a b w route get,
        net.carried name b w,
        net.live,
        net.url_fine name,
      )
  replied j P Q laws call name a w v (err e) route fits called travels =
      let (b, put, get) = laws.args_back a fits in
      ground (
        arith,
        served_json j call name a b w route get,
        net.carried name b w,
        net.live,
        net.url_fine name,
        net.error_back (wire_error text_of (rpc_error e)),
        nat_beq_iff (http_status (rpc_error e).error) 200,
      )
  replied j P Q laws call name a w v panic route fits called travels = absurd travels
