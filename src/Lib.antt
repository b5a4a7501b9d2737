-- ===== src/Lib.antt =====
-- Verification of the core logic of exordos_core (genesis_core): a control plane that gives
-- addresses, machines and volumes to nodes.
--
-- Common holds the shared notation: tests on numbers, lists, Python dictionaries, signed
-- integers, and calls that may raise (Outcome).
--
-- Network follows exordos_core/network. Network.Model has the subnets and ports with the fields
-- that the code reads. Network.Ipam is ipam.py: an address is a number, a pool is the list of its
-- free ranges, and `_pool_map` is a dictionary by the UUID of the subnet, since models are equal
-- by UUID. Network.Service is the part of `_iteration` in service.py that gives ports to new
-- nodes: the loop variable `port` is a field of the state, because its value outlives a round;
-- Network.Service.Start relates what `Ipam(subnet_map)` makes of the listed ports to the state
-- that the loops start from. The database is a parameter that says how each insert ends.
--
-- Compute follows exordos_core/compute. Compute.Scheduler.Volumes, Weights and Pools are
-- `_place_volume_into_pool`, the choice by weights and `_schedule_on_pools` of
-- scheduler/service.py. Compute.Scheduler.Affinity is the filter of
-- scheduler/driver/filters/affinity.py, over the tables that it queries. The pools that the loop
-- works on are shared objects in the source; the model writes a changed pool back by its UUID.
-- Floats are a record parameter with the order laws that hold for all floats but NaN.
-- Compute.Scheduler.Weights.Sums has the sums of the weights by position. Which saves succeed is
-- a parameter.
--
-- Compute.Builders follows exordos_core/compute/builders. Compute.Builders.Machines, with its
-- rows in Model and the outdated derivatives in Outdating, and Volumes are the hooks of
-- `PoolBuilderService` of pool.py: what the agents are wanted to run is a value, and a row that a
-- hook saves or deletes is told by its result. Compute.Builders.Nodes is `NodeBuilderService` of
-- node.py, Compute.Builders.NodeSets `NodeSetBuilderService` of node_set.py with `gen_nodes` of
-- node_set/dm/models.py. The loop of the kit that calls the hooks is not modelled; the
-- specifications of disks belong to the kit and are parameters.
--
-- Compute.Agent is what the agent of a pool does, compute/agents/universal/drivers/pool.py:
-- Compute.Agent.Volumes and Machines are `MetaVolume` and `MetaMachine` over a driver, a record
-- of the operations of pool/drivers/base.py on an unknown state. Compute.Libvirt is the
-- implementation of that record by `LibvirtPoolDriver` of pool/drivers/libvirt.py: the hypervisor
-- and the conversions of UUIDs are parameters, a domain is the record of the elements of its
-- document that the code sets and reads. Compute.Libvirt.Domains has the conversions between
-- machines and domains, Compute.Libvirt.Listing the volumes that are listed,
-- Compute.Libvirt.Volumes the calls that change one. A dictionary of the pool holds the objects
-- that the driver listed, and a method that changes one writes it back. The state that a failing
-- call leaves is not followed.
--
-- Elements follows exordos_core/elements. Common.Text has strings as lists of code points with
-- `split` and `join`, Elements.Links is `clear_parameters` and `ResourceLink` of dm/utils.py, and
-- Elements.Engine is `Namespace` and `ElementEngine` of dm/models.py: Elements.Engine.Model has
-- the elements and resources, Elements.Engine.Space the methods of a namespace. The rows that
-- `load_from_database` reads are its argument, and every import and export in them is of the kind
-- "resource", the only one there is. Elements.Reconcile is the loop over named rows that
-- `apply_imports`, `apply_exports` and `apply_resources` each write out, and Elements.Manifest
-- those methods as its instances, with `LinkResolver` in Elements.Manifest.Resolver; what the
-- relationship to a resource makes of an imported one is a parameter. Elements.Actualize is
-- `Resource.actualize`, given what the rendering of the resource returns or raises; the
-- `updated_at` that `update` leaves in a row is a parameter.
--
-- Network.Plane is `_actualize_subnet` of network/service.py, and Network.Plane.Networks
-- `_actualize_network`: the driver is a parameter, and what is asked of it and which rows are
-- saved goes to a log.
--
-- Network.Flat is the driver network/driver/flat.py, over the configuration file and the context
-- file, of which the second may be missing or broken; Network.Flat.Config is the text of the
-- configuration, network/dhcp/isc.py. A call that raises, while the configuration is built or at
-- the restart of the service, leaves the files as they are at that point; the writes themselves
-- do not fail. Network.Flat.Calls has sequences of calls. The JSON text of the context, the hash
-- and the restart of the service are parameters or values.
--
-- Dns follows exordos_core/dns_sync. Dns.Sync is `_full_sync_domain` and `_fast_sync` of
-- service.py as the lists of requests that they make, Dns.Service is `_ensure_realm_domain` and
-- `_sync_all_domains`. The ecosystem is a parameter: in Dns.Service what it answers, in
-- Dns.Sync.Reconciled a server that acts on POST, PUT and DELETE as documented. Where the source
-- runs through a set of UUIDs, the model takes the order of the dictionary that the set comes
-- from.
--
-- Iam follows exordos_core/user_api/iam/dm/models.py. Iam.Model has the rows; Iam.User the
-- methods of `ModelWithSecret` and `User`; Iam.Scope the two readings of a scope; Iam.Token,
-- Iam.Client and Iam.Idp the classes `Token`, `IamClient` and `Idp` with `IdpAuthorizationInfo`.
-- Queries are searches through lists of rows in the order of their creation. PBKDF2, TOTP,
-- Keycloak, regular expressions and the texts of UUIDs are parameters. A call is given the time,
-- the UUIDs and the salts that it makes.
--
-- Resources has the target resources that secrets and configurations share, and Resources.Spread
-- the steps for those that are spread over hosts: the SSH keys of secret/service.py and, by
-- Config, the configurations of config/service.py, whose code is the same. Secrets is the rest of
-- secret/service.py, for a type of what a secret holds. Deletions of resources are taken to
-- succeed. Values follows vs/dm/models.py and vs/builders/service.py.
--
-- LoadBalancer is `Vhost` of exordos_core/user_api/network/dm/models.py: its validation and the
-- operations on the table of virtual hosts; the parsers of certificates and keys are parameters.
--
-- Security is user_api/security/dm/models.py with the middleware user_api/api/middlewares.py: the
-- rules of a project, in the order the query gives them, and whether a request passes.
--
-- Python integers that never go below zero are natural numbers; tests such as `address < s - 1`
-- have their subtraction moved to the other side. All loops are over lists or a fixed number of
-- tries, so no fuel is needed.
--
-- Not modelled: the ORM and the SQL queries, HTTP, XML, files and subprocesses, logging, random
-- choice, cryptography.
mod Common
pub mod Network
pub mod Compute
pub mod Elements
pub mod Dns
pub mod Iam
pub mod Resources
pub mod Secrets
pub mod Config
pub mod Values
pub mod LoadBalancer
pub mod Security
