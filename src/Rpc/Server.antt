-- ===== src/Rpc/Server.antt =====
-- The RPC server of proto/quotacontrol.gen.go: a handler for each method, and `ServeHTTP`. The hooks
-- `OnRequest` and `OnError` are nil, as NewQuotaControlServer leaves them; context values are left out.
use quotacontrol.Prelude.{
  Bool, true, false, Option, none, some, [], ◌∷◌, ◌++◌, ◌==◌, not, String, if◌then◌else◌,
}
use quotacontrol.Prelude.Text.{Text, text_eq, codes}
use quotacontrol.Prelude.Assoc.{Assoc, lookup}
use quotacontrol.Exec.{got, failed}
use quotacontrol.Proto.Errors.{
  Error, wrapped, with_cause, plain, Result, ok, err, panic, webrpc_bad_request,
  webrpc_bad_response, webrpc_bad_route, webrpc_bad_method, webrpc_server_panic,
}
use quotacontrol.Rpc.{Json, QuotaControl, Codecs, only_value, Request, Response, path_prefix}
use quotacontrol.Rpc.MediaType.{media_type}
use quotacontrol.Rpc.Wire.{WireError, send_error, respond_with_error}

-- A handler writes a response, or panics.
abbrev pub Handler : Type 0 → Type 0 → Type 0
Handler W B = Request B → W → Option (Response B) × W

abbrev pub value_of {ℓ} : {W : Type 0} {A : Type ℓ} → Result (A × Option Error) × W → Result A × W
value_of (ok r, w) = (only_value r, w)
value_of (err e, w) = (err e, w)
value_of (panic, w) = (panic, w)

-- What a request came to, and whether the handler panicked after it wrote the response.
pub record Served (B : Type 0) : Type 0 where
  pub response : Response B
  pub panics : Bool

unfoldable pub bad_request :
    {B : Type 0} → (Error → Text) → (WireError → B) → String → Error → Response B
unfolding respond_with_error
bad_request text_of put_error msg e =
    respond_with_error text_of put_error (with_cause webrpc_bad_request (wrapped msg e))

module _ {W B : Type 0} (text_of : Error → Text) (put_error : WireError → B) where
  unfoldable pub answer : {A R : Type 0} → Json B A R → Result R × W → Option (Response B) × W
  unfolding send_error respond_with_error
  answer j (ok r, w) = elim (j.put_reply r) [
    | got b ↦ (some (record { status = 200; body = b }), w)
    | failed e ↦ (
      some (
          respond_with_error text_of put_error
            (with_cause webrpc_bad_response (wrapped "failed to marshal json response" e))),
      w,
    )
  ]
  answer j (err e, w) = (some (respond_with_error text_of put_error e), w)
  answer j (panic, w) = (none, w)

  -- The steps of a handler: read the body, decode it, call the method, and answer.
  unfoldable pub serve_json : {A R : Type 0} → Json B A R → (A → W → Result R × W) → Handler W B
  unfolding answer bad_request
  serve_json j call request w = elim request.body [
    | failed e ↦ (some (bad_request text_of put_error "failed to read request data" e), w)
    | got b ↦ elim (j.get_args b) [
      | failed e ↦ (some (bad_request text_of put_error "failed to unmarshal request data" e), w)
      | got a ↦ answer j (call a w)
    ]
  ]

  module _ (codecs : Codecs B) (service : QuotaControl W) where
    -- `Ping` has no arguments, and its body is not read.
    unfoldable pub serve_ping : Handler W B
    unfolding answer
    serve_ping request w = answer codecs.ping (service.ping tt w)

    unfoldable pub serve_get_project_status : Handler W B
    unfolding serve_json
    serve_get_project_status = serve_json codecs.get_project_status service.get_project_status

    unfoldable pub serve_get_access_key : Handler W B
    unfolding serve_json
    serve_get_access_key = serve_json codecs.get_access_key service.get_access_key

    unfoldable pub serve_create_access_key : Handler W B
    unfolding serve_json
    serve_create_access_key = serve_json codecs.create_access_key service.create_access_key

    unfoldable pub serve_update_access_key : Handler W B
    unfolding serve_json
    serve_update_access_key = serve_json codecs.update_access_key service.update_access_key

    unfoldable pub serve_list_access_keys : Handler W B
    unfolding serve_json
    serve_list_access_keys = serve_json codecs.list_access_keys service.list_access_keys

    unfoldable pub serve_rotate_access_key : Handler W B
    unfolding serve_json
    serve_rotate_access_key = serve_json codecs.rotate_access_key service.rotate_access_key

    unfoldable pub serve_disable_access_key : Handler W B
    unfolding serve_json
    serve_disable_access_key = serve_json codecs.disable_access_key service.disable_access_key

    unfoldable pub serve_get_default_access_key : Handler W B
    unfolding serve_json
    serve_get_default_access_key =
        serve_json codecs.get_default_access_key service.get_default_access_key

    unfoldable pub serve_set_default_access_key : Handler W B
    unfolding serve_json
    serve_set_default_access_key =
        serve_json codecs.set_default_access_key service.set_default_access_key

    unfoldable pub serve_get_project_quota : Handler W B
    unfolding serve_json
    serve_get_project_quota = serve_json codecs.get_project_quota service.get_project_quota

    unfoldable pub serve_get_access_quota : Handler W B
    unfolding serve_json
    serve_get_access_quota = serve_json codecs.get_access_quota service.get_access_quota

    unfoldable pub serve_clear_access_quota_cache : Handler W B
    unfolding serve_json
    serve_clear_access_quota_cache =
        serve_json codecs.clear_access_quota_cache service.clear_access_quota_cache

    unfoldable pub serve_get_usage : Handler W B
    unfolding serve_json
    serve_get_usage = serve_json codecs.get_usage service.get_usage

    unfoldable pub serve_clear_usage : Handler W B
    unfolding serve_json
    serve_clear_usage = serve_json codecs.clear_usage service.clear_usage

    unfoldable pub serve_sync_project_usage : Handler W B
    unfolding serve_json
    serve_sync_project_usage =
        serve_json codecs.sync_project_usage (λ a w. value_of (service.sync_project_usage a w))

    unfoldable pub serve_sync_access_key_usage : Handler W B
    unfolding serve_json
    serve_sync_access_key_usage =
        serve_json codecs.sync_access_key_usage
          (λ a w. value_of (service.sync_access_key_usage a w))

    unfoldable pub serve_notify_event : Handler W B
    unfolding serve_json
    serve_notify_event = serve_json codecs.notify_event service.notify_event

    unfoldable pub serve_get_user_permission : Handler W B
    unfolding serve_json
    serve_get_user_permission =
        serve_json codecs.get_user_permission (λ a w. value_of (service.get_user_permission a w))

    unfoldable pub serve_get_account_usage : Handler W B
    unfolding serve_json
    serve_get_account_usage = serve_json codecs.get_account_usage service.get_account_usage

    unfoldable pub serve_get_access_key_usage : Handler W B
    unfolding serve_json
    serve_get_access_key_usage = serve_json codecs.get_access_key_usage service.get_access_key_usage

    unfoldable pub serve_get_async_usage : Handler W B
    unfolding serve_json
    serve_get_async_usage = serve_json codecs.get_async_usage service.get_async_usage

    unfoldable pub serve_update_project_usage : Handler W B
    unfolding serve_json
    serve_update_project_usage =
        serve_json codecs.update_project_usage (λ a w. value_of (service.update_project_usage a w))

    unfoldable pub serve_update_key_usage : Handler W B
    unfolding serve_json
    serve_update_key_usage =
        serve_json codecs.update_key_usage (λ a w. value_of (service.update_key_usage a w))

    unfoldable pub serve_prepare_usage : Handler W B
    unfolding serve_json
    serve_prepare_usage = serve_json codecs.prepare_usage service.prepare_usage

    -- The `switch` over the path.
    unfoldable pub routes : Assoc Text (Handler W B)
    routes =
        (path_prefix ++ codes "Ping", serve_ping)
        ∷ (path_prefix ++ codes "GetProjectStatus", serve_get_project_status)
        ∷ (path_prefix ++ codes "GetAccessKey", serve_get_access_key)
        ∷ (path_prefix ++ codes "CreateAccessKey", serve_create_access_key)
        ∷ (path_prefix ++ codes "UpdateAccessKey", serve_update_access_key)
        ∷ (path_prefix ++ codes "ListAccessKeys", serve_list_access_keys)
        ∷ (path_prefix ++ codes "RotateAccessKey", serve_rotate_access_key)
        ∷ (path_prefix ++ codes "DisableAccessKey", serve_disable_access_key)
        ∷ (path_prefix ++ codes "GetDefaultAccessKey", serve_get_default_access_key)
        ∷ (path_prefix ++ codes "SetDefaultAccessKey", serve_set_default_access_key)
        ∷ (path_prefix ++ codes "GetProjectQuota", serve_get_project_quota)
        ∷ (path_prefix ++ codes "GetAccessQuota", serve_get_access_quota)
        ∷ (path_prefix ++ codes "ClearAccessQuotaCache", serve_clear_access_quota_cache)
        ∷ (path_prefix ++ codes "GetUsage", serve_get_usage)
        ∷ (path_prefix ++ codes "ClearUsage", serve_clear_usage)
        ∷ (path_prefix ++ codes "SyncProjectUsage", serve_sync_project_usage)
        ∷ (path_prefix ++ codes "SyncAccessKeyUsage", serve_sync_access_key_usage)
        ∷ (path_prefix ++ codes "NotifyEvent", serve_notify_event)
        ∷ (path_prefix ++ codes "GetUserPermission", serve_get_user_permission)
        ∷ (path_prefix ++ codes "GetAccountUsage", serve_get_account_usage)
        ∷ (path_prefix ++ codes "GetAccessKeyUsage", serve_get_access_key_usage)
        ∷ (path_prefix ++ codes "GetAsyncUsage", serve_get_async_usage)
        ∷ (path_prefix ++ codes "UpdateProjectUsage", serve_update_project_usage)
        ∷ (path_prefix ++ codes "UpdateKeyUsage", serve_update_key_usage)
        ∷ (path_prefix ++ codes "PrepareUsage", serve_prepare_usage)
        ∷ []

    -- The `recover` of `ServeHTTP`: a panic is answered with a server error, and goes on.
    unfoldable pub recovered : Option (Response B) × W → Served B × W
    unfolding respond_with_error
    recovered (some r, w) = (record { response = r; panics = false }, w)
    recovered (none, w) = (
      record {
        response =
            respond_with_error text_of put_error (with_cause webrpc_server_panic (plain "panic"));
        panics = true;
      },
      w,
    )

    unfoldable pub refuse : Error → W → Served B × W
    unfolding respond_with_error
    refuse e w = (record { response = respond_with_error text_of put_error e; panics = false }, w)

    unfoldable pub serve_http : Request B → W → Served B × W
    unfolding recovered refuse media_type
    serve_http request w = elim (lookup request.path routes) [
      | none ↦ refuse (with_cause webrpc_bad_route (plain "no webrpc method defined for path")) w
      | some handler ↦
          if not (request.verb == codes "POST")
          then refuse (with_cause webrpc_bad_method (plain "unsupported HTTP method")) w
          else if not (media_type request.content_type == codes "application/json")
          then refuse (with_cause webrpc_bad_request (plain "unsupported Content-Type")) w
          else recovered (handler request w)
    ]
