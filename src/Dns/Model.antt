-- ===== src/Dns/Model.antt =====
-- `Domain` and `Record` of exordos_core/user_api/dns/dm/models.py, as far as the synchronization
-- reads them, and the records as the ecosystem returns them.
-- A body is the simple type of a record's properties: the code only compares it, so it is a number.
use Prim.Native.String.{String}
use genesis_core.Common.{ℕ, Bool, Option}

pub record Domain : Type 0 where
  pub uuid : ℕ
  pub name : String
  pub sync_to_ecosystem : Bool

pub record Record : Type 0 where
  pub uuid : ℕ
  pub domain : Domain
  pub record_type : String
  pub ttl : ℕ
  pub disabled : Bool
  pub body : ℕ
  pub created_at : ℕ
  pub updated_at : ℕ

-- The dictionary that `_build_record_data` makes.
pub record RecordData : Type 0 where
  pub uuid : ℕ
  pub record_type : String
  pub ttl : ℕ
  pub disabled : Bool
  pub body : ℕ

-- A record in an answer of the ecosystem, in which each key may be missing.
pub record EcoRecord : Type 0 where
  pub uuid : Option ℕ
  pub record_type : Option String
  pub ttl : Option ℕ
  pub disabled : Option Bool
  pub body : Option ℕ
