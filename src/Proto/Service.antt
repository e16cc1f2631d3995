-- ===== src/Proto/Service.antt =====
-- Services: their names in proto/quotacontrol.gen.go and the functions on them in proto/proto.go.
pub mod Names
use quotacontrol.Prelude.{
  ℕ, Bool, false, ◌||◌, Option, none, some, List, [], ◌∷◌, ◌==◌, nat_eq, if◌then◌else◌,
}
use quotacontrol.Prelude.Text.{Text, text_eq, codes, text_beq}
use quotacontrol.Prelude.Assoc.{Assoc, lookup}
use quotacontrol.Proto.Types.{Service}

-- `Service_name`, in the order of the numbers; Go iterates over it in any order.
abbrev pub service_name : Assoc Service Text
service_name =
    (0, codes "NodeGateway")
    ∷ (1, codes "API")
    ∷ (2, codes "Indexer")
    ∷ (3, codes "Relayer")
    ∷ (4, codes "Metadata")
    ∷ (5, codes "Marketplace")
    ∷ (6, codes "Builder")
    ∷ (7, codes "WaaS")
    ∷ (8, codes "Trails")
    ∷ []

-- `Service_value`
abbrev pub service_value : Assoc Text Service
service_value =
    (codes "NodeGateway", 0)
    ∷ (codes "API", 1)
    ∷ (codes "Indexer", 2)
    ∷ (codes "Relayer", 3)
    ∷ (codes "Metadata", 4)
    ∷ (codes "Marketplace", 5)
    ∷ (codes "Builder", 6)
    ∷ (codes "WaaS", 7)
    ∷ (codes "Trails", 8)
    ∷ []

-- `for i := range proto.Service_name`
abbrev pub all_services : List Service
all_services = 0 ∷ 1 ∷ 2 ∷ 3 ∷ 4 ∷ 5 ∷ 6 ∷ 7 ∷ 8 ∷ []

-- A read of a Go map gives the zero value where the key is missing.
abbrev pub or_empty : Option Text → Text
or_empty none = []
or_empty (some t) = t

-- `x.String()`
unfoldable pub service_string : Service → Text
unfolding lookup
service_string x = or_empty (lookup x service_name)

-- `ParseService`
unfoldable pub parse_service : Text → Option Service
unfolding lookup text_beq
parse_service v = lookup v service_value

-- `x.GetName()`
unfoldable pub get_name : Service → Text
get_name x =
    if x == 0
    then codes "node-gateway"
    else if x == 1
    then codes "api"
    else if x == 2
    then codes "indexer"
    else if x == 3
    then codes "relayer"
    else if x == 4
    then codes "metadata"
    else if x == 5
    then codes "marketplace"
    else if x == 6
    then codes "builder"
    else if x == 7
    then codes "waas"
    else if x == 8
    then codes "trails"
    else []

-- `x.Is(values...)`, of the three enums; `none` is the nil pointer.
unfoldable pub is_one_of : Option ℕ → List ℕ → Bool
is_one_of none values = false
is_one_of (some x) [] = false
is_one_of (some x) (v ∷ values) = x == v || is_one_of (some x) values
