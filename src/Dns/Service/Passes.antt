-- ===== src/Dns/Service/Passes.antt =====
-- The domain of the realm, and the pace of the full passes.
use Prim.Native.String.{String}
use genesis_core.Common.{
  ℕ, ◌+◌, ◌≤◌, Bool, true, false, none, some, List, [], ◌∷◌, ◌++◌, ◌≡◌, ◌⊎◌, inl, inr, refl, arith,
  Option-cases,
}
use genesis_core.Common.Dict.{string_key, same_refl}
use genesis_core.Dns.Model.{Domain, Record}
use genesis_core.Dns.Sync.{holds}
use genesis_core.Dns.Service.{
  find_domain, mark_domain, ensure_realm_domain, Ecosystem, State, full_sync_interval, initialize,
  run_full, run_fast, sync_all_domains,
}

is_marked : String → List Domain → Bool
is_marked name table = holds (λ d. d.sync_to_ecosystem) (find_domain name table)

mark_domain_marks :
    (name : String) (table : List Domain) (d : Domain)
    → find_domain name table ≡ some d
    → is_marked name (mark_domain name table) ≡ true
unfolding is_marked mark_domain
mark_domain_marks name [] d h = cc
mark_domain_marks name (x ∷ table) d h = ground (arith, mark_domain_marks name table d)

mark_domain_others :
    (name other : String) (table : List Domain)
    → string_key.same name other ≡ false
    → find_domain other (mark_domain name table) ≡ find_domain other table
unfolding mark_domain
mark_domain_others name other [] h = refl
mark_domain_others name other (x ∷ table) h = ground (
  arith,
  mark_domain_others name other table,
  string_key.same_iff x.name name,
  string_key.same_iff x.name other,
  string_key.same_iff name other,
)

append_marked :
    (name : String) (d : Domain) (table : List Domain)
    → find_domain name table ≡ none
    → d.name ≡ name
    → d.sync_to_ecosystem ≡ true
    → is_marked name (table ++ (d ∷ [])) ≡ true
unfolding is_marked
append_marked name d [] h e m = ground (arith, same_refl name)
append_marked name d (x ∷ table) h e m = ground (arith, append_marked name d table)

append_others :
    (name other : String) (d : Domain) (table : List Domain)
    → d.name ≡ name
    → string_key.same name other ≡ false
    → find_domain other (table ++ (d ∷ [])) ≡ find_domain other table
append_others name other d [] e h = ground arith
append_others name other d (x ∷ table) e h = ground (arith, append_others name other d table)

-- With a domain that the realm names, the service is initialized, the domain of that name is in the
-- table and marked, and what stands under every other name stays.
pub ensure_realm_domain_lem :
    (fresh : ℕ) (name other : String) (table : List Domain)
    → string_key.same name "" ≡ false
    → string_key.same name other ≡ false
    → ((ensure_realm_domain fresh (some name) table).0 ≡ true)
      × (holds
            (λ d. d.sync_to_ecosystem)
            (find_domain name (ensure_realm_domain fresh (some name) table).1)
          ≡ true)
      × (find_domain other (ensure_realm_domain fresh (some name) table).1
          ≡ find_domain other table)
unfolding ensure_realm_domain is_marked
ensure_realm_domain_lem fresh name other table h distinct =
    let made : Domain = record { uuid = fresh; name = name; sync_to_ecosystem = true } in
    elim (Option-cases (find_domain name table)) [
      | inl missing ↦ ground (
        arith,
        append_marked name made table missing refl refl,
        append_others name other made table refl distinct,
      )
      | inr (d, found) ↦ ground (
        arith,
        mark_domain_marks name table d found,
        mark_domain_others name other table distinct,
      )
    ]

-- A pass leaves the time of the last full pass, or is a full one and at least the interval later
-- than that. A full pass sets the time from which the next fast one looks for changes to its end.
pub sync_all_domains_pace :
    (ecosystem : Ecosystem) (records : List Record) (fresh now end : ℕ) (s : State)
    → let s' = (sync_all_domains ecosystem records fresh now end s).0 in
      (s'.last_full_sync_at ≡ s.last_full_sync_at)
      ⊎ ((s'.last_full_sync_at ≡ now)
          × (s.last_full_sync_at + full_sync_interval ≤ now)
          × (s'.last_fast_sync_dt ≡ some end))
unfolding sync_all_domains run_full run_fast initialize
sync_all_domains_pace ecosystem records fresh now end s = ground arith
