-- ===== src/Mock/Server/Events.antt =====
-- The events of a spend that the server of mock/server.go gets to know.
use quotacontrol.Prelude.{
  ℕ, ◌≡◌, refl, ap, Option, none, some, List, [], ◌∷◌, ◌++◌, nat_eq, ◌==◌, nat_beq_iff,
  if◌then◌else◌, ◌&&◌, not, arith,
}
use quotacontrol.Prelude.Int.{ℤ, ltb_ℤ}
use quotacontrol.Prelude.Assoc.{lookup-insert}
use quotacontrol.Time.{Time}
use quotacontrol.Exec.{Exec}
use quotacontrol.Proto.Types.{Service, EventType, ServiceLimit, AccessKey}
use quotacontrol.Proto.Limits.{get_spend_result}
use quotacontrol.Cache.{Cache}
use quotacontrol.Usage.{Tracker}
use quotacontrol.Client.Spend.{notify, settle}
use quotacontrol.Rpc.{QuotaControl}
use quotacontrol.Rpc.Adapters.{quota_client}
use quotacontrol.Mock.Server.{Event, Server, get_events, noted, notify_event, mock_methods}

get_events-noted :
    (p q : ℕ) (e : Event) (s : Server)
    → get_events q (noted p e s) ≡ (if p == q then get_events q s ++ e ∷ [] else get_events q s)
unfolding get_events noted
get_events-noted p q e s =
    ground (arith, lookup-insert p q (get_events p s ++ e ∷ []) s.notifications, nat_beq_iff p q)

-- What a spend adds to the events of a project.
abbrev pub added : Service → Option EventType → List Event
added service none = []
added service (some t) = (record { service = service; event_type = t }) ∷ []

append-nil {ℓ} : {A : Type ℓ} (xs : List A) → (xs ++ []) ≡ xs
append-nil [] = refl
append-nil (x ∷ xs) = ap (x ∷◌) (append-nil xs)

module _ {W : Type 0} (server : QuotaControl W) (cache : Cache (Server × W)) (service : Service)
    (sleep : ℕ → Exec (Server × W) (Unit {0})) where
  notified :
      (p : ℕ) (event : Option EventType) (s : Server) (w : W) (q : ℕ)
      → get_events q
          (notify cache (quota_client (mock_methods server)) service sleep p event (s, w)).1.0
        ≡ (if p == q then get_events q s ++ added service event else get_events q s)
  unfolding notify mock_methods notify_event
  notified p none s w q = ground (arith, append-nil (get_events q s))
  notified p (some t) s w q =
      ground (arith, get_events-noted p q (record { service = service; event_type = t }) s)

  -- Over the mock server: a spend that is counted in full adds its event, if it has one, to the
  -- events of its project, and no spend changes the events otherwise.
  pub get_events-settle :
      (cfg : ServiceLimit) (k : AccessKey) (cost total : ℤ) (now : Time) (u : Tracker) (s : Server)
      (w : W) (q : ℕ)
      → get_events q
          (settle cache
            (quota_client (mock_methods server))
            service
            sleep
            cfg
            k
            cost
            now
            total
            (u, (s, w))).1.1.0
        ≡ (if (k.project_id == q) && not (ltb_ℤ (get_spend_result cfg cost total).0 cost)
            then get_events q s ++ added service (get_spend_result cfg cost total).1
            else get_events q s)
  unfolding settle
  get_events-settle cfg k cost total now u s w q =
      ground (arith, notified k.project_id (get_spend_result cfg cost total).1 s w q)
