-- ===== src/Network/Flat/Config.antt =====
-- The configuration of the DHCP server, exordos_core/network/dhcp/isc.py. An address is a number where
-- only its text is read, and four octets in a route; the texts of numbers and addresses are parameters.
use genesis_core.Common.{
  ℕ, ◌==◌, not, Bool, false, Option, none, some, List, [], ◌∷◌, ◌++◌, any, map, if◌then◌else◌,
}
use genesis_core.Common.Outcome.{Outcome, ok, raised, ◌>>=◌}
use genesis_core.Common.Text.{Text, codes}
use genesis_core.Network.Model.{PortStatus}

pub record StaticRoute : Type 0 where
  pub to : List ℕ
  pub prefixlen : ℕ
  pub via : List ℕ

pub record Subnet : Type 0 where
  pub uuid : ℕ
  pub network : ℕ
  pub netmask : ℕ
  pub ip_discovery_range : Option (ℕ × ℕ)
  pub dns_servers : Option (List Text)
  pub routers : Option (List StaticRoute)
  pub next_server : Option Text

pub record Port : Type 0 where
  pub uuid : ℕ
  pub subnet : ℕ
  pub mac : Option Text
  pub ipv4 : Option ℕ
  pub status : PortStatus

pub record Shows : Type 0 where
  pub show : ℕ → Text
  pub show_ip : ℕ → Text
  pub show_uuid : ℕ → Text

-- The exceptions of the driver and of the configuration.
pub data FlatError : Type 0 where
  subnet_exists port_exists : ℕ → FlatError
  port_not_configured type_error restart_failed missing_key : FlatError

-- A network of the length 0 equals `0.0.0.0/0`.
abbrev pub is_default : StaticRoute → Bool
is_default route = route.prefixlen == 0

abbrev pub joined : Text → List Text → Text
joined sep [] = []
joined sep (t ∷ []) = t
joined sep (t ∷ u ∷ ts) = t ++ (sep ++ joined sep (u ∷ ts))

-- The loop over the octets from the last: zeros are left out until one is not.
abbrev pub append_octet : ℕ → List ℕ → List ℕ
append_octet d [] = if d == 0 then [] else d ∷ []
append_octet d (e ∷ mask) = d ∷ e ∷ mask

unfoldable pub mask_of : List ℕ → List ℕ
mask_of [] = []
mask_of (d ∷ ds) = append_octet d (mask_of ds)

module _ (shows : Shows) where
  abbrev pub octets : List ℕ → Text
  octets ds = joined (codes ",") (map shows.show ds)

  unfoldable pub to_rfc3442 : StaticRoute → Text
  unfolding mask_of
  to_rfc3442 route =
      if is_default route
      then codes " 0, " ++ (octets route.via ++ codes ",")
      else codes " "
        ++ (shows.show route.prefixlen
            ++ (codes ", "
                ++ (octets (mask_of route.to) ++ (codes ", " ++ (octets route.via ++ codes ",")))))

  abbrev pub other_routes : List StaticRoute → Text
  other_routes [] = []
  other_routes (route ∷ routes) =
      let rest = other_routes routes in if is_default route then rest else to_rfc3442 route ++ rest

  abbrev pub default_route : List StaticRoute → Option StaticRoute
  default_route [] = none
  default_route (route ∷ routes) =
      let rest = default_route routes in if is_default route then some route else rest

  -- `line[:-1]`
  abbrev pub without_last : Text → Text
  without_last [] = []
  without_last (c ∷ []) = []
  without_last (c ∷ d ∷ t) = c ∷ without_last (d ∷ t)

  abbrev pub route_line : Option StaticRoute → Text
  route_line none = []
  route_line (some route) =
      codes "option routers " ++ (joined (codes ".") (map shows.show route.via) ++ codes ";")

  abbrev pub default_rfc3442 : Option StaticRoute → Text
  default_rfc3442 none = []
  default_rfc3442 (some route) = to_rfc3442 route

  unfoldable pub rfc3442_static_routes : List StaticRoute → Text
  unfolding to_rfc3442
  rfc3442_static_routes [] = []
  rfc3442_static_routes (route ∷ routes) =
      let default = default_route (route ∷ routes) in
      let line =
        codes "option rfc3442-classless-static-routes"
        ++ (other_routes (route ∷ routes) ++ default_rfc3442 default) in
      route_line default ++ (codes "\n\t" ++ (without_last line ++ codes ";\n"))

  -- `_auto_discovery_pool_template`
  abbrev pub pool_of : Option (ℕ × ℕ) → Text
  pool_of none = []
  pool_of (some (start, end)) =
      codes "\n\tpool {\n\t\tmax-lease-time 900;\n\t\tdefault-lease-time 900;\n\n\t\trange "
      ++ (shows.show_ip start ++ (codes " " ++ (shows.show_ip end ++ codes ";\n\t}\n")))

  -- `_host_template`
  abbrev pub host_of : ℕ → Text → ℕ → Text
  host_of uuid mac ipv4 =
      codes "\n\thost P_"
      ++ (shows.show_uuid uuid
          ++ (codes " {\n\t\thardware ethernet "
              ++ (mac
                  ++ (codes ";\n\t\tfixed-address " ++ (shows.show_ip ipv4 ++ codes ";\n\t}")))))

  unfoldable pub hosts_of : List Port → Outcome FlatError Text
  hosts_of [] = ok []
  hosts_of (port ∷ ports) = elim port.mac [
    | none ↦ raised port_not_configured
    | some mac ↦ elim port.ipv4 [
      | none ↦ raised port_not_configured
      | some ipv4 ↦ hosts_of ports >>= λ hosts. ok (host_of port.uuid mac ipv4 ++ hosts)
    ]
  ]

  abbrev pub is_server : Text → Bool
  is_server [] = false
  is_server (c ∷ t) = not (any (λ d. d == b';') (c ∷ t))

  -- `_netboot_template`
  abbrev pub netboot_of : Option Text → Text
  netboot_of none = []
  netboot_of (some server) =
      if is_server server
      then codes
          "\n\n\t# Netboot\n\tif substring (option vendor-class-identifier, 15, 5) = \"00007\" {\n\t\tfilename \"uefi/ipxe.efi\";\n\t} else {\n\t\tfilename \"bios/undionly.kpxe\";\n\t}\n\tnext-server "
        ++ (server ++ codes ";\n")
      else []

  -- What is none where the code iterates ends in a `TypeError`.
  abbrev pub listed : {A : Type 0} → Option (List A) → Outcome FlatError (List A)
  listed none = raised type_error
  listed (some items) = ok items

  -- `_subnet_template`
  unfoldable pub subnet_config : Subnet → List Port → Outcome FlatError Text
  unfolding hosts_of rfc3442_static_routes
  subnet_config subnet ports = do
    hosts ← hosts_of ports
    dns_servers ← listed subnet.dns_servers
    routes ← listed subnet.routers
    ok (
        codes "\nsubnet "
        ++ (shows.show_ip subnet.network
            ++ (codes " netmask "
                ++ (shows.show_ip subnet.netmask
                    ++ (codes " {\n\toption domain-name-servers "
                        ++ (joined (codes ",") dns_servers
                            ++ (codes ";\n\t"
                                ++ (rfc3442_static_routes routes
                                    ++ (codes "\n\t"
                                        ++ (pool_of subnet.ip_discovery_range
                                            ++ (codes "\n\t"
                                                ++ (hosts
                                                    ++ (codes "\n\t"
                                                        ++ (netboot_of subnet.next_server
                                                            ++ codes "\n}\n"))))))))))))))

  -- `_common_settings`
  abbrev pub common_settings : Text
  common_settings =
      codes
        "# Common settings\nallow bootp;\nallow booting;\noption ip-forwarding false;\noption mask-supplier false;\nmax-lease-time 1209600;\ndefault-lease-time 1209600;\nlog-facility local7;\n\noption rfc3442-classless-static-routes code 121 = array of integer 8;\n"

  unfoldable pub subnets_config : List (Subnet × List Port) → Outcome FlatError Text
  unfolding subnet_config
  subnets_config [] = ok []
  subnets_config ((subnet, ports) ∷ rest) = do
    first ← subnet_config subnet ports
    others ← subnets_config rest
    ok (first ++ others)

  unfoldable pub dhcp_config : List (Subnet × List Port) → Outcome FlatError Text
  unfolding subnets_config
  dhcp_config subnets = subnets_config subnets >>= λ config. ok (common_settings ++ config)
