-- ===== src/Compute/Scheduler/Affinity.antt =====
-- `DummySoftAntiAffinityFilter` of exordos_core/compute/scheduler/driver/filters/affinity.py.
-- The tables of allocations and machines that it queries are arguments.
use genesis_core.Common.{
  ℕ, ◌==◌, ◌&&◌, not, Bool, true, false, Option, none, some, List, [], ◌∷◌, select, any, ◌≡◌, refl,
  arith, sym, subst, Member, Member-select, Bool-cases, inl, inr,
}
use genesis_core.Compute.Model.{Machine, NodeBundle, MachinePoolBundle}

-- `PlacementPolicyAllocation`
pub record Allocation : Type 0 where
  pub policy : ℕ
  pub node : ℕ

abbrev pub is_some_of : Option ℕ → ℕ → Bool
is_some_of none k = false
is_some_of (some j) k = j == k

-- The allocations of the node.
abbrev pub own_allocations : List Allocation → ℕ → List Allocation
own_allocations table node = select (λ a. a.node == node) table

-- The allocations of other nodes in the policies of the node.
abbrev pub peer_allocations : List Allocation → ℕ → List Allocation
peer_allocations table node =
    select
      (λ a. any (λ o. o.policy == a.policy) (own_allocations table node) && not (a.node == node))
      table

abbrev pub machines_in_policy : List Allocation → List Machine → ℕ → List Machine
machines_in_policy table machines node =
    select (λ m. any (λ a. is_some_of m.node a.node) (peer_allocations table node)) machines

-- No machine of a node that shares a policy is in the pool.
abbrev pub is_free : List Allocation → List Machine → ℕ → MachinePoolBundle → Bool
is_free table machines node p =
    not (any (λ m. is_some_of m.pool p.pool.uuid) (machines_in_policy table machines node))

abbrev pub or_all : List MachinePoolBundle → List MachinePoolBundle → List MachinePoolBundle
or_all [] pools = pools
or_all (p ∷ ps) pools = p ∷ ps

unfoldable pub filter_by :
    List Allocation
    → List Allocation
    → List Machine
    → ℕ
    → List MachinePoolBundle
    → List MachinePoolBundle
filter_by [] table machines node pools = pools
filter_by (a ∷ own) table machines node pools =
    or_all (select (is_free table machines node) pools) pools

unfoldable pub affinity_filter :
    List Allocation → List Machine → NodeBundle → List MachinePoolBundle → List MachinePoolBundle
unfolding filter_by
affinity_filter table machines bundle pools =
    filter_by (own_allocations table bundle.node.uuid) table machines bundle.node.uuid pools

none_selected :
    (test : MachinePoolBundle → Bool) (q : MachinePoolBundle) (pools : List MachinePoolBundle)
    → select test pools ≡ []
    → Member q pools
    → test q ≡ false
none_selected test q [] h m = absurd m
none_selected test q (x ∷ pools) h m = elim (Bool-cases (test x)) [
  | inl holds ↦ ground arith
  | inr fails ↦ elim m [
    | inl same ↦ ground arith
    | inr later ↦ none_selected test q pools (ground arith) later
  ]
]

or_all_lem :
    (test : MachinePoolBundle → Bool) (selected pools : List MachinePoolBundle)
    (p q : MachinePoolBundle)
    → selected ≡ select test pools
    → Member p (or_all selected pools)
    → Member q pools
    → test q ≡ true
    → Member p pools × (test p ≡ true)
or_all_lem test [] pools p q e m there free =
    let taken = none_selected test q pools (sym e) there in cc
or_all_lem test (x ∷ xs) pools p q e m there free =
    Member-select test p pools (subst (Member p) e m)

select_never :
    {A : Type 0} (test : A → Bool) (xs : List A) → ((x : A) → test x ≡ false) → select test xs ≡ []
select_never test [] h = refl
select_never test (x ∷ xs) h = ground (arith, h x, select_never test xs h)

-- Without an allocation of its own, a node shares a policy with no other.
free_without_policy :
    (table : List Allocation) (machines : List Machine) (node : ℕ) (p : MachinePoolBundle)
    → own_allocations table node ≡ []
    → is_free table machines node p ≡ true
free_without_policy table machines node p none_own =
    let peers : peer_allocations table node ≡ [] =
      select_never
        (λ (a : Allocation).
          any (λ (o : Allocation). o.policy == a.policy) (own_allocations table node)
          && not (a.node == node))
        table (λ a. rw none_own refl) in
    let shared : machines_in_policy table machines node ≡ [] =
      select_never
        (λ (m : Machine).
          any (λ (a : Allocation). is_some_of m.node a.node) (peer_allocations table node))
        machines (λ m. rw peers refl) in
    rw shared refl

filter_by_lem :
    (own table : List Allocation) (machines : List Machine) (node : ℕ)
    (pools : List MachinePoolBundle) (p q : MachinePoolBundle)
    → own_allocations table node ≡ own
    → Member p (filter_by own table machines node pools)
    → Member q pools
    → is_free table machines node q ≡ true
    → Member p pools × (is_free table machines node p ≡ true)
unfolding filter_by
filter_by_lem [] table machines node pools p q own m there free =
    (m, free_without_policy table machines node p own)
filter_by_lem (a ∷ rest) table machines node pools p q own m there free =
    or_all_lem (is_free table machines node) (select (is_free table machines node) pools) pools p q
      refl m there free

-- While a pool is free of machines that share a policy with the node, the filter returns only such
-- pools, out of those that it is given.
pub affinity_filter_lem :
    (table : List Allocation) (machines : List Machine) (bundle : NodeBundle)
    (pools : List MachinePoolBundle) (p q : MachinePoolBundle)
    → Member p (affinity_filter table machines bundle pools)
    → Member q pools
    → is_free table machines bundle.node.uuid q ≡ true
    → Member p pools × (is_free table machines bundle.node.uuid p ≡ true)
affinity_filter_lem table machines bundle pools p q m there free =
    filter_by_lem (own_allocations table bundle.node.uuid) table machines bundle.node.uuid pools p q
      refl (unfold affinity_filter in m) there free
