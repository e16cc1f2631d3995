-- ===== src/Rpc/Losses.antt =====
-- `SyncUsage` of internal/usage/usage.go with the RPC client as its updater.
use quotacontrol.Prelude.{◌≡◌, ◌≢◌, ap, Bool, some, [], ◌∷◌}
use quotacontrol.Prelude.Int.{ℤ, pos}
use quotacontrol.Prelude.Text.{Text, text_eq}
use quotacontrol.Prelude.Assoc.{Assoc}
use quotacontrol.Time.{Time}
use quotacontrol.Proto.Errors.{Error, ok, http_status}
use quotacontrol.Proto.Types.{Service}
use quotacontrol.Usage.{Record, Tracker}
use quotacontrol.Usage.Recorded.{recorded}
use quotacontrol.Usage.Sync.{sync_usage}
use quotacontrol.Usage.Loss.{AllFail, sync_usage_loses}
use quotacontrol.Rpc.{JsonLaws, QuotaControl, Codecs}
use quotacontrol.Rpc.Wire.{WireError, rpc_error}
use quotacontrol.Rpc.Client.{remote}
use quotacontrol.Rpc.Http.{HttpClient}
use quotacontrol.Rpc.Adapters.{rpc_updater}
use quotacontrol.Rpc.RoundTrip.{Carries, over_wire}
use quotacontrol.Rpc.Faithful.{remote_sync_keys_lem}

module _ {W B : Type 0} (text_of : Error → Text) (put_error : WireError → B)
    (client : HttpClient W B) (codecs : Codecs B) (base : Text) (service : QuotaControl W)
    (net : Carries text_of put_error client codecs base service) (served : Service)
    (P : Service × Time × Assoc Text ℤ → Type 0) (Q : Assoc Text Bool → Type 0)
    (keys_json : JsonLaws codecs.sync_access_key_usage P Q) where
  -- The record's report of access keys can be encoded, and the server answers it with an error
  -- beside its map, whose HTTP status is not 200.
  abbrev pub Refused : Time → Record → Type 0
  Refused now r =
      P (served, now, r.by_access_key)
      × ((w : W)
          → (m : Assoc Text Bool) × (e : Error) × (v : W) × (service.sync_access_key_usage
                (served, now, r.by_access_key) w
              ≡ (ok (m, some e), v))
            × (http_status (rpc_error e).error ≢ 200))

  abbrev pub AllRefused : Tracker → Type 0
  AllRefused [] = Unit {0}
  AllRefused ((now, r) ∷ rest) = Refused now r × AllRefused rest

  all_fail :
      (u : Tracker) → AllRefused u → AllFail (rpc_updater (remote client codecs base)) served u
  all_fail [] h = tt
  all_fail ((now, r) ∷ rest) ((fits, refused), others) = (
    λ w.
        let (m, e, v, called, bad) = refused w in
        (
          over_wire text_of e,
          ap (λ p. p.0)
              (remote_sync_keys_lem text_of put_error client codecs base service net P Q keys_json m
                e (served, now, r.by_access_key) w v fits called bad),
        ),
    all_fail rest others,
  )

  -- Over a network that carries what the server writes, where the report of access keys of each of
  -- the tracker's records can be encoded and the server answers it in any state with an error
  -- beside its map, of an HTTP status that is not 200: after SyncUsage over the RPC client the
  -- tracker has no usage of any access key at any time, whichever keys the maps say have failed.
  pub remote-sync_usage_loses :
      (u : Tracker) (w : W) (j : Text) (t : Time)
      → AllRefused u
      → recorded j t (sync_usage (rpc_updater (remote client codecs base)) served (u, w)).1.0
        ≡ pos 0
  remote-sync_usage_loses u w j t refused =
      sync_usage_loses (rpc_updater (remote client codecs base)) served j t u w (all_fail u refused)
