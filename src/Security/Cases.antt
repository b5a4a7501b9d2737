-- ===== src/Security/Cases.antt =====
-- Rules on the creation of users, and the theorem on the middleware at them.
use genesis_core.Common.{◌≡◌, ◌&&◌, ◌||◌, not, false, none, some, List, [], ◌∷◌, all, any}
use genesis_core.Common.Text.{codes, text_beq}
use genesis_core.Security.{
  Library, Request, Rule, and_operator, or_operator, uri_condition, no_fields, admin_bypass,
  is_available, process_request,
}
use genesis_core.Security.Allowed.{is_and_rule, is_or_rule, passes, process_request_lem}

abbrev lib : Library
lib = record {
  lower = λ t. t;
  upper = λ t. t;
  re_match = text_beq;
  verify_token = λ token. none;
  verify_solution = λ payload key. false;
}

abbrev on_users : Rule
on_users = record {
  condition = uri_condition (codes "/v1/users/") (some (codes "POST"));
  verifier = no_fields (codes "email_verified" ∷ []);
  operator = and_operator;
  project_id = none;
}

abbrev bypass : Rule
bypass = record on_users { verifier = admin_bypass (codes "admin" ∷ []); operator = or_operator }

abbrev request : Request
request = record {
  method = codes "POST";
  path_info = codes "/v1/users/";
  header = λ name. none;
  payload = some (codes "email_verified" ∷ []);
  introspection = some (record {
    project_id = none;
    user_info = some (record { email = some (codes "admin"); uuid = none });
  });
}

abbrev rules : List Rule
rules = on_users ∷ bypass ∷ []

process_request_example : process_request lib rules request ≡ (
    not (any (is_available lib request) rules)
    || ((any (is_and_rule lib request) rules
          && all (λ rule. not (is_and_rule lib request rule) || passes lib request rule) rules)
        || any (λ rule. is_or_rule lib request rule && passes lib request rule) rules))
process_request_example = process_request_lem lib request rules
