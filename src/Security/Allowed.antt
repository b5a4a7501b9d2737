-- ===== src/Security/Allowed.antt =====
-- Which requests the middleware lets pass, whatever the order of the rules.
use genesis_core.Common.{
  ◌≡◌, refl, ◌∙◌, ◌&&◌, ◌||◌, not, Bool, true, false, List, [], ◌∷◌, all, any, select, arith,
  if◌then◌else◌, inl, inr, Bool-cases,
}
use genesis_core.Security.{
  Library, Request, Rule, is_and, is_available, is_empty, process_request, verify, verify_rules,
}

is_empty-any : (v : Rule → Bool) (rules : List Rule) → (is_empty rules && any v rules) ≡ false
is_empty-any v [] = refl
is_empty-any v (r ∷ rules) = refl

-- The tests of `verify_rules` as one: on rules with AND and with OR, whether each list is empty and
-- what it verifies.
by_tests :
    (no_and no_or all_and any_or : Bool) (none : (no_or && any_or) ≡ false)
    → (if no_and && no_or
        then true
        else (if not no_and && all_and then true else (if not no_or then any_or else false)))
      ≡ (not (not no_and || not no_or) || ((not no_and && all_and) || any_or))
by_tests true true a o none = ground arith
by_tests true false a o none = ground arith
by_tests false true true o none = ground arith
by_tests false true false o none = ground arith
by_tests false false true o none = ground arith
by_tests false false false o none = ground arith

by_presence :
    (no_and no_or all_and any_or some_rule some_and some_or : Bool) (e : no_and ≡ not some_and)
    (f : no_or ≡ not some_or) (g : some_rule ≡ (some_and || some_or))
    → (not (not no_and || not no_or) || ((not no_and && all_and) || any_or))
      ≡ (not some_rule || ((some_and && all_and) || any_or))
by_presence no_and no_or a o r true true e f g = ground arith
by_presence no_and no_or a o r true false e f g = ground arith
by_presence no_and no_or a o r false true e f g = ground arith
by_presence no_and no_or a o r false false e f g = ground arith

module _ (p q v : Rule → Bool) where
  empty_selected :
      (rules : List Rule) → is_empty (select p (select q rules)) ≡ not (any (λ r. q r && p r) rules)
  empty_selected [] = refl
  empty_selected (r ∷ rules) =
      let ih = empty_selected rules in
      elim (Bool-cases (q r)) [
        | inr out ↦ ground arith
        | inl in_q ↦ elim (Bool-cases (p r)) [ inl in_p ↦ ground arith | inr out ↦ ground arith ]
      ]

  all_selected :
      (rules : List Rule)
      → all v (select p (select q rules)) ≡ all (λ r. not (q r && p r) || v r) rules
  all_selected [] = refl
  all_selected (r ∷ rules) =
      let ih = all_selected rules in
      elim (Bool-cases (q r)) [
        | inr out ↦ ground arith
        | inl in_q ↦ elim (Bool-cases (p r)) [ inl in_p ↦ ground arith | inr out ↦ ground arith ]
      ]

  any_selected :
      (rules : List Rule) → any v (select p (select q rules)) ≡ any (λ r. (q r && p r) && v r) rules
  any_selected [] = refl
  any_selected (r ∷ rules) =
      let ih = any_selected rules in
      elim (Bool-cases (q r)) [
        | inr out ↦ ground arith
        | inl in_q ↦ elim (Bool-cases (p r)) [ inl in_p ↦ ground arith | inr out ↦ ground arith ]
      ]

  any_split :
      (rules : List Rule)
      → any q rules ≡ (any (λ r. q r && p r) rules || any (λ r. q r && not (p r)) rules)
  any_split [] = refl
  any_split (r ∷ rules) =
      let ih = any_split rules in
      elim (Bool-cases (q r)) [
        | inr out ↦ ground arith
        | inl in_q ↦ elim (Bool-cases (p r)) [ inl in_p ↦ ground arith | inr out ↦ ground arith ]
      ]

module _ (lib : Library) (request : Request) where
  abbrev pub is_and_rule : Rule → Bool
  is_and_rule rule = is_available lib request rule && is_and rule

  abbrev pub is_or_rule : Rule → Bool
  is_or_rule rule = is_available lib request rule && not (is_and rule)

  abbrev pub passes : Rule → Bool
  passes rule = verify lib rule.verifier request

  -- A request passes exactly when no rule is available for it, or there are available rules with AND
  -- and all of them verify it, or some available rule with OR verifies it.
  pub process_request_lem :
      (rules : List Rule)
      → process_request lib rules request ≡ (
          not (any (is_available lib request) rules)
          || ((any is_and_rule rules && all (λ rule. not (is_and_rule rule) || passes rule) rules)
              || any (λ rule. is_or_rule rule && passes rule) rules))
  unfolding process_request verify_rules
  process_request_lem rules =
      let q = is_available lib request in
      let e1 = empty_selected is_and q passes rules in
      let e2 = empty_selected (λ rule. not (is_and rule)) q passes rules in
      let a = all_selected is_and q passes rules in
      let o = any_selected (λ rule. not (is_and rule)) q passes rules in
      let s = any_split is_and q passes rules in
      let ands = select is_and (select q rules) in
      let ors = select (λ rule. not (is_and rule)) (select q rules) in
      by_tests (is_empty ands) (is_empty ors) (all passes ands) (any passes ors)
        (is_empty-any passes ors)
      ∙ by_presence _ _ _ _ _ _ _ e1 e2 s
      ∙ rw (a, o) refl
