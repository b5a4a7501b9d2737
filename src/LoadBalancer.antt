-- ===== src/LoadBalancer.antt =====
-- The virtual hosts of exordos_core/user_api/network/dm/models.py: `Vhost` with its validation. The
-- parsers of certificates and keys are parameters. A list that is missing is the empty list.
pub mod Exclusive
mod Cases
use genesis_core.Common.{
  ℕ, ◌==◌, ◌&&◌, ◌||◌, not, Bool, true, false, Option, none, some, List, [], ◌∷◌, if◌then◌else◌,
  any, select,
}
use genesis_core.Common.Dict.Updates.{is_present}
use genesis_core.Common.Outcome.{Outcome, ok, raised, ◌>>=◌}
use genesis_core.Common.Text.{Text}

pub data Protocol : Type 0 where
  http https tcp udp : Protocol

pub record Cert : Type 0 where
  pub crt : Text
  pub key : Text

pub record Vhost : Type 0 where
  pub uuid : ℕ
  pub parent : ℕ
  pub protocol : Protocol
  pub port : ℕ
  pub domains : List Text
  pub cert : Option Cert
  pub source_keys : List Text
  pub proxy_protocol_from : Option Text

pub record Route : Type 0 where
  pub uuid : ℕ
  pub parent : ℕ

pub record Tables : Type 0 where
  pub vhosts : List Vhost
  pub routes : List Route

pub data VhostError : Type 0 where
  value_error : VhostError
  unique_violation : VhostError

-- `q in PROTOCOL_CONFLICT_MAPPING[p]`
unfoldable pub in_conflict : Protocol → Protocol → Bool
in_conflict http https = true
in_conflict http tcp = true
in_conflict https http = true
in_conflict https tcp = true
in_conflict tcp http = true
in_conflict tcp https = true
in_conflict tcp tcp = true
in_conflict udp udp = true
in_conflict _ _ = false

abbrev pub is_empty : {A : Type 0} → List A → Bool
is_empty [] = true
is_empty (_ ∷ _) = false

-- The filter of the query for another virtual host on the port.
abbrev pub conflicts : Vhost → Vhost → Bool
conflicts v w =
    not (w.uuid == v.uuid)
    && w.parent == v.parent
    && w.port == v.port
    && in_conflict v.protocol w.protocol

abbrev pub has_uuid : ℕ → List Vhost → Bool
has_uuid uuid = any (λ (w : Vhost). w.uuid == uuid)

abbrev pub add : Tables → Vhost → Outcome VhostError Tables
add tables v =
    if has_uuid v.uuid tables.vhosts
    then raised unique_violation
    else ok (record tables { vhosts = v ∷ tables.vhosts })

unfoldable pub replace : Vhost → List Vhost → List Vhost
replace v [] = []
replace v (w ∷ vhosts) =
    let rest = replace v vhosts in if w.uuid == v.uuid then v ∷ rest else w ∷ rest

-- The routes of the host are deleted with it.
unfoldable pub delete : Vhost → Tables → Outcome VhostError Tables
delete v tables = ok (record {
  vhosts = select (λ (w : Vhost). not (w.uuid == v.uuid)) tables.vhosts;
  routes = select (λ (r : Route). not (r.parent == v.uuid)) tables.routes;
})

module _ (valid_crt valid_key valid_ssh : Text → Bool) where
  abbrev pub valid_cert : Option Cert → Bool
  valid_cert none = false
  valid_cert (some cert) = valid_crt cert.crt && valid_key cert.key

  -- What `_validate` asks of the fields, before it looks at the other hosts.
  abbrev pub valid_fields : Protocol → Vhost → Bool
  valid_fields http v = not (is_empty v.domains)
  valid_fields https v = not (is_empty v.domains) && valid_cert v.cert
  valid_fields tcp v = is_empty v.domains && not (is_present v.cert)
  valid_fields udp v =
      not (is_present v.proxy_protocol_from) && is_empty v.domains && not (is_present v.cert)

  -- `_validate`; every failure is a `ValueError`.
  unfoldable pub validate : Vhost → List Vhost → Outcome VhostError Vhost
  validate v vhosts =
      if valid_fields v.protocol v
        && not (any (conflicts v) vhosts)
        && not (any (λ key. not (valid_ssh key)) v.source_keys)
      then ok v
      else raised value_error

  unfoldable pub insert : Vhost → Tables → Outcome VhostError Tables
  unfolding validate
  insert v tables = validate v tables.vhosts >>= add tables

  unfoldable pub update : Vhost → Tables → Outcome VhostError Tables
  unfolding validate replace
  update v tables =
      validate v tables.vhosts >>= λ w. ok (record tables { vhosts = replace w tables.vhosts })
