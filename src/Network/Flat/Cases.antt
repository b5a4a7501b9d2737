-- ===== src/Network/Flat/Cases.antt =====
-- A host with one subnet, and the theorems on the driver at it.
use genesis_core.Common.{◌≡◌, ◌≢◌, refl, true, none, some, List, [], ◌∷◌, ◌++◌}
use genesis_core.Common.Dict
use genesis_core.Common.Dict.{nat_key}
use genesis_core.Common.Outcome.{ok}
use genesis_core.Common.Text.{Text, codes}
use genesis_core.Network.Model.{new}
use genesis_core.Network.Flat.{
  Context, Files, Host, missing, saved, create_port, create_ports, create_subnet, delete_port,
  load_ctx, list_ports,
}
use genesis_core.Network.Flat.Config.{Subnet, Port, mask_of}
use genesis_core.Network.Flat.Calls.{
  Operation, Remembered, creates_subnet, creates_port, creates_ports, deletes_port, run, run_all,
}
use genesis_core.Network.Flat.Synced.{IsSynced, run_all-IsSynced}
use genesis_core.Network.Flat.Listed.{list_ports-create_ports, new_ports, delete_port-create_port}
use genesis_core.Network.Flat.Routes.{mask_of_lem}

abbrev host : Host
host = record {
  shows = record { show = λ n. n ∷ []; show_ip = λ n. n ∷ []; show_uuid = λ n. n ∷ [] };
  hash = λ t. 1 ∷ t;
  restarts = λ t. true;
}

abbrev lan : Subnet
lan = record {
  uuid = 1;
  network = 10;
  netmask = 24;
  ip_discovery_range = some (20, 30);
  dns_servers = some [];
  routers =
      some (record { to = 10 ∷ 1 ∷ 0 ∷ 0 ∷ []; prefixlen = 16; via = 10 ∷ 0 ∷ 0 ∷ 1 ∷ [] } ∷ []);
  next_server = none;
}

abbrev web : Port
web = record { uuid = 2; subnet = 1; mac = some (codes "a9"); ipv4 = some 11; status = new }

abbrev db : Port
db = record { uuid = 3; subnet = 1; mac = some (codes "aa"); ipv4 = some 12; status = new }

-- Without an address the configuration cannot be made.
abbrev unplaced : Port
unplaced = record { uuid = 4; subnet = 1; mac = none; ipv4 = none; status = new }

abbrev before : Files
before = record { cfg = []; ctx = missing }

abbrev calls : List Operation
calls =
    creates_subnet lan
    ∷ creates_ports (web ∷ db ∷ [])
    ∷ creates_port unplaced
    ∷ deletes_port web
    ∷ []

filled : (t : Text) → host.hash t ≢ []
filled t e = cc

never :
    (ctx : Context)
    → before.ctx ≡ saved ctx
    → ctx ≡ record { cfg_hash = []; subnets = []; port_map = [] }
never ctx e = cc

run_all-IsSynced_example :
    IsSynced host (run host (creates_port db) (run_all host calls before)).1
    × Remembered host (run host (creates_port db) (run_all host calls before))
run_all-IsSynced_example = run_all-IsSynced host filled calls (creates_port db) before never

abbrev with_lan : Files
with_lan = (create_subnet host lan before).1

abbrev with_ports : Files
with_ports = (create_ports host (web ∷ db ∷ []) with_lan).1

creates_both :
    create_ports host (web ∷ db ∷ []) with_lan ≡ (ok (load_ctx host with_ports), with_ports)
unfolding create_ports create_subnet Dict.get genesis_core.Network.Flat.Config.dhcp_config Dict.put
creates_both = refl

list_ports-create_ports_example :
    list_ports host 1 with_ports ≡ list_ports host 1 with_lan ++ new_ports 1 (web ∷ db ∷ [])
list_ports-create_ports_example =
    list_ports-create_ports host 1 (web ∷ db ∷ []) (load_ctx host with_ports) with_lan with_ports
      creates_both

abbrev with_web : Files
with_web = (create_port host web with_lan).1

abbrev without_web : Files
without_web = (delete_port host web with_web).1

creates_web : create_port host web with_lan ≡ (ok (load_ctx host with_web), with_web)
unfolding create_port create_subnet Dict.get genesis_core.Network.Flat.Config.dhcp_config Dict.put
creates_web = refl

deletes_web : delete_port host web with_web ≡ (ok (load_ctx host without_web), without_web)
unfolding delete_port create_port create_subnet Dict.get
    genesis_core.Network.Flat.Config.dhcp_config Dict.put
deletes_web = refl

delete_port-create_port_example : list_ports host 1 without_web ≡ list_ports host 1 with_lan
delete_port-create_port_example =
    delete_port-create_port host 1 web (load_ctx host with_web) (load_ctx host without_web) with_lan
      with_web without_web creates_web deletes_web

mask_of_example : mask_of (10 ∷ 0 ∷ 0 ∷ 0 ∷ []) ≡ 10 ∷ []
unfolding mask_of
mask_of_example = mask_of_lem (10 ∷ []) 0 2
