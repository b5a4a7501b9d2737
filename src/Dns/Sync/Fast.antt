-- ===== src/Dns/Sync/Fast.antt =====
-- What `_fast_sync` pushes.
use Prim.Native.String.{String}
use genesis_core.Common.{
  ℕ, ◌==◌, true, ◌≡◌, refl, some, List, [], ◌∷◌, ◌++◌, arith, if◌then◌else◌, Member, inl, inr,
  Option-cases, Bool-cases, subst, sym, ap, All,
}
use genesis_core.Common.Dict
use genesis_core.Common.Dict.{Dict, nat_key, string_key, get-put}
use genesis_core.Dns.Model.{Domain, Record}
use genesis_core.Dns.Sync.{
  recent_records, appended, group, eco_domain_map, push, push_all, push_domain, push_groups,
  fast_sync,
}

Member-append_left : {A : Type 0} (a : A) (xs ys : List A) → Member a xs → Member a (xs ++ ys)
Member-append_left a [] ys m = absurd m
Member-append_left a (x ∷ xs) ys (inl e) = inl e
Member-append_left a (x ∷ xs) ys (inr m) = inr (Member-append_left a xs ys m)

Member-append_right : {A : Type 0} (a : A) (xs ys : List A) → Member a ys → Member a (xs ++ ys)
Member-append_right a [] ys m = m
Member-append_right a (x ∷ xs) ys m = inr (Member-append_right a xs ys m)

-- The group of the domain, under a name.
abbrev Grouped : Record → Dict ℕ (Domain × List Record) → Type 0
Grouped r groups =
    (rs : List Record) × (Dict.get r.domain.uuid groups ≡ some (r.domain, rs)) × Member r rs

Member-push_all :
    (since eco : ℕ) (r : Record) (rs : List Record)
    → Member r rs
    → Member (eco, push since r) (push_all since eco rs)
unfolding push_all
Member-push_all since eco r [] m = absurd m
Member-push_all since eco r (x ∷ rs) (inl e) = inl (ap (λ y. (eco, push since y)) e)
Member-push_all since eco r (x ∷ rs) (inr m) = inr (Member-push_all since eco r rs m)

Member-push_groups :
    (since eco k : ℕ) (names : Dict String ℕ) (r : Record) (d : Domain) (rs : List Record)
    (groups : Dict ℕ (Domain × List Record))
    → Dict.get d.name names ≡ some eco
    → Dict.get k groups ≡ some (d, rs)
    → Member r rs
    → Member (eco, push since r) (push_groups since names groups)
unfolding push_groups Dict.get
Member-push_groups since eco k names r d rs [] named found m = cc
Member-push_groups since eco k names r d rs ((j, (d', rs')) ∷ groups) named found m =
    elim (Bool-cases (j == k)) [
      | inr other ↦
          let later : Dict.get k groups ≡ some (d, rs) = ground arith in
          Member-append_right (eco, push since r) (push_domain since (Dict.get d'.name names) rs')
            (push_groups since names groups)
            (Member-push_groups since eco k names r d rs groups named later m)
      | inl here ↦
          let domain : d' ≡ d = ground arith in
          let records : rs' ≡ rs = ground arith in
          let pushed : push_all since eco rs ≡ push_domain since (Dict.get d'.name names) rs' =
            ground arith in
          Member-append_left (eco, push since r) (push_domain since (Dict.get d'.name names) rs')
            (push_groups since names groups)
            (subst (Member (eco, push since r)) pushed (Member-push_all since eco r rs m))
    ]

-- What a record does to the groups.
abbrev grouped : Record → Dict ℕ (Domain × List Record) → Dict ℕ (Domain × List Record)
grouped x groups =
    if x.domain.sync_to_ecosystem
    then Dict.put x.domain.uuid (appended x.domain x (Dict.get x.domain.uuid groups)) groups
    else groups

Member-appended : (r x : Record) (rs : List Record) → Member r rs → Member r (rs ++ (x ∷ []))
Member-appended r x rs m = Member-append_left r rs (x ∷ []) m

grouped_keeps :
    (r x : Record) (groups : Dict ℕ (Domain × List Record))
    → Grouped r groups
    → Grouped r (grouped x groups)
grouped_keeps r x groups (rs, found, m) =
    let put =
      get-put x.domain.uuid r.domain.uuid (appended x.domain x (Dict.get x.domain.uuid groups))
        groups in
    elim (Bool-cases x.domain.sync_to_ecosystem) [
      | inr off ↦ (rs, ground arith, m)
      | inl on ↦ elim (Bool-cases (x.domain.uuid == r.domain.uuid)) [
        | inr other ↦ (rs, ground arith, m)
        | inl same ↦ (rs ++ (x ∷ []), ground arith, Member-appended r x rs m)
      ]
    ]

group_keeps :
    (r : Record) (xs : List Record) (groups : Dict ℕ (Domain × List Record))
    → Grouped r groups
    → Grouped r (group xs groups)
unfolding group
group_keeps r [] groups g = g
group_keeps r (x ∷ xs) groups g = group_keeps r xs (grouped x groups) (grouped_keeps r x groups g)

-- A group of the record's domain has that very domain.
abbrev Fits : Record → Dict ℕ (Domain × List Record) → Type 0
Fits r groups =
    (d : Domain) (rs : List Record) → Dict.get r.domain.uuid groups ≡ some (d, rs) → d ≡ r.domain

-- Records with the UUID of a record's domain have the domain of the record.
abbrev pub SameDomain : Record → Record → Type 0
SameDomain r x = x.domain.uuid ≡ r.domain.uuid → x.domain ≡ r.domain

Fits-grouped :
    (r x : Record) (groups : Dict ℕ (Domain × List Record))
    → Fits r groups
    → SameDomain r x
    → Fits r (grouped x groups)
Fits-grouped r x groups fits same d rs h =
    let put =
      get-put x.domain.uuid r.domain.uuid (appended x.domain x (Dict.get x.domain.uuid groups))
        groups in
    elim (Option-cases (Dict.get r.domain.uuid groups)) [
      | inl fresh ↦ ground (arith, same)
      | inr ((d', rs'), found) ↦ ground (arith, same, fits d' rs' found)
    ]

grouped-Grouped :
    (r : Record) (groups : Dict ℕ (Domain × List Record))
    → Fits r groups
    → r.domain.sync_to_ecosystem ≡ true
    → Grouped r (grouped r groups)
grouped-Grouped r groups fits on =
    let put =
      get-put r.domain.uuid r.domain.uuid (appended r.domain r (Dict.get r.domain.uuid groups))
        groups in
    elim (Option-cases (Dict.get r.domain.uuid groups)) [
      | inl fresh ↦ (r ∷ [], ground arith, inl refl)
      | inr ((d, rs), found) ↦ (
        rs ++ (r ∷ []),
        ground (arith, fits d rs found),
        Member-append_right r rs (r ∷ []) (inl refl),
      )
    ]

group-Grouped :
    (r : Record) (xs : List Record) (groups : Dict ℕ (Domain × List Record))
    → Fits r groups
    → All (SameDomain r) xs
    → r.domain.sync_to_ecosystem ≡ true
    → Member r xs
    → Grouped r (group xs groups)
unfolding group
group-Grouped r [] groups fits same on m = absurd m
group-Grouped r (x ∷ xs) groups fits (here, later) on (inl e) =
    group_keeps r xs (grouped x groups)
      (subst (λ y. Grouped r (grouped y groups)) (sym e) (grouped-Grouped r groups fits on))
group-Grouped r (x ∷ xs) groups fits (here, later) on (inr m) =
    group-Grouped r xs (grouped x groups) (Fits-grouped r x groups fits here) later on m

no_group : (r : Record) → Fits r []
unfolding Dict.get
no_group r d rs h = cc

-- A record that changed since the last pass, no SOA record, in a domain that is synchronized and
-- that the ecosystem has, is pushed to the domain there: as a new record if it was created since
-- then, as an update if not. Records with the UUID of its domain must have that domain.
pub Member-fast_sync :
    (since eco : ℕ) (table : List Record) (answer : List (String × ℕ)) (r : Record)
    → Member r (recent_records since table)
    → r.domain.sync_to_ecosystem ≡ true
    → Dict.get r.domain.name (eco_domain_map answer []) ≡ some eco
    → All (SameDomain r) (recent_records since table)
    → Member (eco, push since r) (fast_sync since table answer)
unfolding fast_sync
Member-fast_sync since eco table answer r m on named same =
    let (rs, found, member) =
      group-Grouped r (recent_records since table) [] (no_group r) same on m in
    Member-push_groups since eco r.domain.uuid (eco_domain_map answer []) r r.domain rs
      (group (recent_records since table) []) named found member
