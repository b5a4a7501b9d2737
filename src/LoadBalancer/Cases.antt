-- ===== src/LoadBalancer/Cases.antt =====
-- Virtual hosts on which the operations run, and the theorem at them.
use genesis_core.Common.{◌≡◌, refl, true, none, [], ◌∷◌, Bool}
use genesis_core.Common.Outcome.{ok}
use genesis_core.Common.Text.{Text, codes}
use genesis_core.LoadBalancer.{Vhost, Tables, http, https, insert, value_error}
use genesis_core.LoadBalancer.Exclusive.{is_valid, run-is_valid, inserts}

abbrev accept : Text → Bool
accept t = true

abbrev host : Vhost
host = record {
  uuid = 1;
  parent = 9;
  protocol = http;
  port = 80;
  domains = codes "a.org" ∷ [];
  cert = none;
  source_keys = [];
  proxy_protocol_from = none;
}

abbrev other : Vhost
other = record host { uuid = 2; domains = codes "b.org" ∷ [] }

abbrev one_host : Tables
one_host = record { vhosts = host ∷ []; routes = [] }

abbrev two_hosts : Tables
two_hosts = record one_host { vhosts = other ∷ host ∷ [] }

insert_test : insert accept accept accept other one_host ≡ ok two_hosts
unfolding insert genesis_core.LoadBalancer.in_conflict
insert_test = refl

run-is_valid_example : is_valid accept accept accept two_hosts ≡ true
run-is_valid_example =
    run-is_valid accept accept accept (inserts other) one_host two_hosts insert_test refl
