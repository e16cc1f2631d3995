-- ===== src/Proto/Types.antt =====
-- The enums and structs of proto/quotacontrol.gen.go. A pointer that may be nil is an `Option`; an
-- `int64` is an integer in its range; a map is an association list; a `Service` is its `uint16`.
use quotacontrol.Prelude.{ℕ, Bool, false, Option, none, List, [], nat_beq}
use quotacontrol.Prelude.Int.{ℤ}
use quotacontrol.Prelude.Text.{Text}
use quotacontrol.Prelude.Assoc.{Assoc}
use quotacontrol.Time.{Time}

abbrev pub Service : Type 0
Service = ℕ

pub data EventType : Type 0 where
  free_warn free_max over_warn over_max : EventType

pub data UserPermission : Type 0 where
  unauthorized read read_write admin : UserPermission

-- The `uint16` of a permission, by which Go compares permissions.
abbrev pub rank : UserPermission → ℕ
rank unauthorized = 0
rank read = 1
rank read_write = 2
rank admin = 3

pub record Cycle : Type 0 where
  pub start : Time
  pub end : Time

pub record ProjectInfo : Type 0 where
  pub id : ℕ
  pub ecosystem_id : ℕ
  pub cycle : Option Cycle
  pub chain_ids : List ℕ
  pub features : List Text

pub record ServiceLimit : Type 0 where
  pub rate_limit : ℤ
  pub free_warn : ℤ
  pub free_max : ℤ
  pub over_warn : ℤ
  pub over_max : ℤ

pub record Limit : Type 0 where
  pub service_limit : Assoc Text ServiceLimit
  pub rate_limit : ℤ
  pub free_warn : ℤ
  pub free_max : ℤ
  pub over_warn : ℤ
  pub over_max : ℤ

-- `AllowedOrigins` is a list of texts, as quotacontrol.ridl declares it.
pub record AccessKey : Type 0 where
  pub project_id : ℕ
  pub display_name : Text
  pub access_key : Text
  pub active : Bool
  pub is_default : Bool
  pub require_origin : Bool
  pub allowed_origins : List Text
  pub allowed_services : List Service
  pub created_at : Option Time

pub record AccessUsage : Type 0 where
  pub valid_compute : ℤ
  pub over_compute : ℤ
  pub limited_compute : ℤ

pub record AccessQuota : Type 0 where
  pub info : Option ProjectInfo
  pub cycle : Option Cycle
  pub limit : Option Limit
  pub access_key : Option AccessKey

pub record ProjectStatus : Type 0 where
  pub project_id : ℕ
  pub limit : Limit
  pub usage_counter : Assoc Text ℤ
  pub rate_limit_counter : Assoc Text ℤ

pub record Subscription : Type 0 where
  pub tier : Text

pub record Minter : Type 0 where
  pub contracts : List Text

pub record ResourceAccess : Type 0 where
  pub project_id : ℕ
  pub subscription : Option Subscription
  pub minter : Option Minter

-- The zero values of the structs.
abbrev pub zero_info : ProjectInfo
zero_info = record { id = 0; ecosystem_id = 0; cycle = none; chain_ids = []; features = [] }

abbrev pub zero_key : AccessKey
zero_key = record {
  project_id = 0;
  display_name = [];
  access_key = [];
  active = false;
  is_default = false;
  require_origin = false;
  allowed_origins = [];
  allowed_services = [];
  created_at = none;
}

-- `Is` of one of the enums with one value: Go's `==` on the numbers.
abbrev pub permission_beq : UserPermission → UserPermission → Bool
permission_beq a b = nat_beq (rank a) (rank b)
