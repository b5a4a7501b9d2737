-- ===== src/Network/Flat.antt =====
-- `FlatBridgeNetworkDriver` and `DHCPContext` of exordos_core/network/driver/flat.py. The state is the
-- two files; a call that raises leaves the files as they are then. Models are equal by UUID. The hash of
-- a text and the restart of the service are parameters.
pub mod Config
pub mod Synced
pub mod Calls
pub mod Listed
pub mod Routes
mod Cases
use genesis_core.Common.{
  ℕ, ◌==◌, ◌&&◌, not, Bool, true, false, Option, none, some, List, [], ◌∷◌, ◌++◌, any,
  if◌then◌else◌,
}
use genesis_core.Common.Dict
use genesis_core.Common.Dict.{Dict, nat_key}
use genesis_core.Common.Outcome.{Outcome, ok, raised, ◌>>=◌}
use genesis_core.Common.Text.{Text, text_beq}
use genesis_core.Network.Model.{PortStatus, active}
use genesis_core.Network.Flat.Config.{
  Subnet, Port, Shows, FlatError, subnet_exists, port_exists, restart_failed, missing_key,
  dhcp_config,
}

-- `DHCPContext`
pub record Context : Type 0 where
  pub cfg_hash : Text
  pub subnets : List Subnet
  pub port_map : Dict ℕ (List Port)

-- The context's file: missing, not JSON, or a context.
pub data ContextFile : Type 0 where
  missing broken : ContextFile
  saved : Context → ContextFile

pub record Files : Type 0 where
  pub cfg : Text
  pub ctx : ContextFile

-- Whether the service restarts with a configuration is what `systemctl` says.
pub record Host : Type 0 where
  pub shows : Shows
  pub hash : Text → Text
  pub restarts : Text → Bool

abbrev pub get_empty_ctx : Context
get_empty_ctx = record { cfg_hash = []; subnets = []; port_map = [] }

-- `port_map[uuid]`, of a dictionary that has an empty list for a key it has not.
abbrev pub ports_at : ℕ → Dict ℕ (List Port) → List Port
ports_at uuid port_map = elim (Dict.get uuid port_map) [ none ↦ [] | some ports ↦ ports ]

abbrev pub subnet_map : List Subnet → Dict ℕ (List Port) → List (Subnet × List Port)
subnet_map [] port_map = []
subnet_map (s ∷ subnets) port_map = (s, ports_at s.uuid port_map) ∷ subnet_map subnets port_map

abbrev pub is_port : ℕ → Port → Bool
is_port uuid p = p.uuid == uuid

abbrev pub is_subnet : ℕ → Subnet → Bool
is_subnet uuid s = s.uuid == uuid

-- `list.remove`: the first that is equal.
abbrev pub remove_port : ℕ → List Port → List Port
remove_port uuid [] = []
remove_port uuid (p ∷ ports) =
    let rest = remove_port uuid ports in if is_port uuid p then ports else p ∷ rest

abbrev pub remove_subnet : ℕ → List Subnet → List Subnet
remove_subnet uuid [] = []
remove_subnet uuid (s ∷ subnets) =
    let rest = remove_subnet uuid subnets in if is_subnet uuid s then subnets else s ∷ rest

unfoldable pub add_subnet : Subnet → Context → Outcome FlatError Context
add_subnet subnet ctx =
    if any (is_subnet subnet.uuid) ctx.subnets
    then raised (subnet_exists subnet.uuid)
    else ok (record ctx {
      subnets = ctx.subnets ++ subnet ∷ [];
      port_map = Dict.put subnet.uuid [] ctx.port_map;
    })

-- `del` raises where the key is missing.
unfoldable pub delete_from : Subnet → Context → Outcome FlatError Context
delete_from subnet ctx =
    if any (is_subnet subnet.uuid) ctx.subnets
    then elim (Dict.get subnet.uuid ctx.port_map) [
      | none ↦ raised missing_key
      | some ports ↦ ok (record ctx {
        subnets = remove_subnet subnet.uuid ctx.subnets;
        port_map = Dict.remove subnet.uuid ctx.port_map;
      })
    ]
    else ok ctx

unfoldable pub add_port : Port → Context → Outcome FlatError Context
add_port port ctx =
    let ports = ports_at port.subnet ctx.port_map in
    if any (is_port port.uuid) ports
    then raised (port_exists port.uuid)
    else ok (record ctx { port_map = Dict.put port.subnet (ports ++ port ∷ []) ctx.port_map })

-- The key is there after it was read.
unfoldable pub remove_from : Port → Context → Context
remove_from port ctx = record ctx {
  port_map =
      Dict.put port.subnet (remove_port port.uuid (ports_at port.subnet ctx.port_map)) ctx.port_map;
}

-- A call with the files that it leaves.
abbrev pub Run : Type 0 → Type 0
Run A = Outcome FlatError A × Files

abbrev pub after : {A B : Type 0} → Outcome FlatError A → Files → (A → Run B) → Run B
after (raised failure) files next = (raised failure, files)
after (ok a) files next = next a

abbrev pub active_port : Port → Port
active_port port = record port { status = active }

module _ (host : Host) where
  -- A file that is missing is made, with the empty context.
  abbrev pub made : Files → Files
  made files = elim files.ctx [
    | missing ↦ record files { ctx = saved get_empty_ctx }
    | broken ↦ files
    | saved ctx ↦ files
  ]

  -- `_load_ctx`; a hash that differs from the configuration's makes the context empty.
  unfoldable pub load_ctx : Files → Context
  load_ctx files = elim files.ctx [
    | missing ↦ get_empty_ctx
    | broken ↦ get_empty_ctx
    | saved ctx ↦ if text_beq (host.hash files.cfg) ctx.cfg_hash then ctx else get_empty_ctx
  ]

  unfoldable pub apply_cfg : Context → Files → Run Context
  apply_cfg ctx files =
      after (dhcp_config host.shows (subnet_map ctx.subnets ctx.port_map)) files (λ config.
        let written = record files { cfg = config } in
        let done = record ctx { cfg_hash = host.hash config } in
        if host.restarts config
        then (ok done, record written { ctx = saved done })
        else (raised restart_failed, written))

  unfoldable pub list_subnets : Files → List Subnet
  unfolding load_ctx
  list_subnets files = (load_ctx files).subnets

  unfoldable pub list_ports : ℕ → Files → List Port
  unfolding load_ctx
  list_ports subnet files = ports_at subnet (load_ctx files).port_map

  abbrev pub apply : Outcome FlatError Context → Files → Run Context
  apply changed files = after changed files (λ ctx. apply_cfg ctx files)

  abbrev pub add_ports : List Port → Context → Outcome FlatError Context
  add_ports [] ctx = ok ctx
  add_ports (port ∷ ports) ctx = add_port (active_port port) ctx >>= add_ports ports

  abbrev pub remove_ports : List Port → Context → Context
  remove_ports [] ctx = ctx
  remove_ports (port ∷ ports) ctx = remove_ports ports (remove_from port ctx)

  -- The operations of the driver, each with the context that it applies.
  unfoldable pub create_subnet : Subnet → Files → Run Context
  unfolding load_ctx add_subnet apply_cfg
  create_subnet subnet files = apply (add_subnet subnet (load_ctx files)) (made files)

  unfoldable pub create_port : Port → Files → Run Context
  unfolding load_ctx add_port apply_cfg
  create_port port files = apply (add_port (active_port port) (load_ctx files)) (made files)

  unfoldable pub create_ports : List Port → Files → Run Context
  unfolding load_ctx add_port apply_cfg
  create_ports ports files = apply (add_ports ports (load_ctx files)) (made files)

  unfoldable pub delete_subnet : Subnet → Files → Run Context
  unfolding load_ctx delete_from apply_cfg
  delete_subnet subnet files =
      let ctx = load_ctx files in
      if any (is_subnet subnet.uuid) ctx.subnets
      then apply (delete_from subnet ctx) (made files)
      else (ok ctx, made files)

  unfoldable pub delete_port : Port → Files → Run Context
  unfolding load_ctx remove_from apply_cfg
  delete_port port files =
      let ctx = load_ctx files in
      if any (is_port port.uuid) (ports_at port.subnet ctx.port_map)
      then apply_cfg (remove_from port ctx) (made files)
      else (ok ctx, made files)

  unfoldable pub delete_ports : List Port → Files → Run Context
  unfolding load_ctx remove_from apply_cfg
  delete_ports ports files = apply_cfg (remove_ports ports (load_ctx files)) (made files)

  unfoldable pub update_port : Port → Files → Run Context
  unfolding load_ctx remove_from add_port apply_cfg
  update_port port files =
      apply (add_port (active_port port) (remove_from port (load_ctx files))) (made files)

  unfoldable pub update_subnet : Subnet → Files → Run Context
  unfolding load_ctx delete_from add_subnet apply_cfg
  update_subnet subnet files =
      apply (delete_from subnet (load_ctx files) >>= add_subnet subnet) (made files)
