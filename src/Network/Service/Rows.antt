-- ===== src/Network/Service/Rows.antt =====
-- What it takes for the rows of exordos_core/network/service.py to have addresses of their own, and that
-- an address taken from the free ones clashes with none.
use mathlib.Core.Bool.{false≢true}
use native.Mathlib.Decide.{ℕ_discrete}
use genesis_core.Common.{
  ℕ, ◌≡◌, refl, sym, ◌∙◌, ap, ◌==◌, inl, inr, ◌&&◌, not, Bool, true, false, Option, none, some,
  List, [], ◌∷◌, arith, any, all, Bool-cases,
}
use genesis_core.Network.Model.{Port}
use genesis_core.Network.Ipam.{Pool, Ipam}
use genesis_core.Network.Ipam.Pools.{contains, IsValid}
use genesis_core.Network.Ipam.Allocation.{pool_of, Took}
use genesis_core.Network.Service.{SubnetMap, find_subnet, append_port}

-- Two rows hold one address of one subnet.
abbrev pub same_address : Option ℕ → Option ℕ → Bool
same_address (some a) (some b) = a == b
same_address (some a) none = false
same_address none o = false

abbrev pub clash : Port → Port → Bool
clash p q = p.subnet == q.subnet && same_address p.ipv4 q.ipv4

abbrev pub apart : List Port → Bool
apart [] = true
apart (p ∷ ps) = not (any (clash p) ps) && apart ps

-- The row's address is not free.
abbrev pub taken_at : Pool → Option ℕ → Bool
taken_at pool none = true
taken_at pool (some a) = not (contains a pool)

abbrev pub taken : Ipam → Port → Bool
taken ipam p = taken_at (pool_of ipam p.subnet) p.ipv4

-- Every pool is valid, no address of a row is free, and no two rows clash.
pub record IsConsistent (ipam : Ipam) (rows : List Port) : Type 0 where
  pub valid : (k : ℕ) → IsValid (pool_of ipam k)
  pub held : all (taken ipam) rows ≡ true
  pub separate : apart rows ≡ true

taken_at_less :
    (p p' : Pool) (a : ℕ) (o : Option ℕ)
    → ((b : ℕ) → contains b p' ≡ (contains b p && not (b == a)))
    → taken_at p o ≡ true
    → taken_at p' o ≡ true
taken_at_less p p' a none m h = refl
taken_at_less p p' a (some b) m h = ground (arith, m b)

module _ (k a : ℕ) (before after : Ipam) (took : Took k a before after) where
  Took-IsValid : ((j : ℕ) → IsValid (pool_of before j)) → (j : ℕ) → IsValid (pool_of after j)
  Took-IsValid v j = elim (ℕ_discrete j k) [
    | yes same ↦ rw same took.valid
    | no ne ↦ rw (took.others j ne) (v j)
  ]

  Took-taken : (p : Port) → taken before p ≡ true → taken after p ≡ true
  Took-taken p h = elim (ℕ_discrete p.subnet k) [
    | yes same ↦
        taken_at_less (pool_of before p.subnet) (pool_of after p.subnet) a p.ipv4
          (rw same took.members) h
    | no ne ↦ rw (took.others p.subnet ne) h
  ]

  Took-held : (rows : List Port) → all (taken before) rows ≡ true → all (taken after) rows ≡ true
  Took-held [] h = refl
  Took-held (p ∷ rows) h = ground (arith, Took-taken p, Took-held rows)

  Took-gone : contains a (pool_of after k) ≡ false
  Took-gone = ground (arith, took.members a)

same_address-eq : (a : ℕ) (o o' : Option ℕ) → o ≡ some a → same_address o o' ≡ true → o' ≡ some a
same_address-eq a (some b) (some c) e h = ground arith
same_address-eq a (some b) none e h = cc
same_address-eq a none o' e h = cc

taken_at-ne :
    (p : Pool) (a : ℕ) (o : Option ℕ) → taken_at p o ≡ true → o ≡ some a → contains a p ≡ false
taken_at-ne p a none h e = cc
taken_at-ne p a (some b) h e = ground arith

clash_same :
    (p q : Port) → clash p q ≡ true → (p.subnet ≡ q.subnet) × (same_address p.ipv4 q.ipv4 ≡ true)
clash_same p q h = ground arith

free_clash :
    (ipam : Ipam) (p q : Port) (a : ℕ)
    → p.ipv4 ≡ some a
    → contains a (pool_of ipam p.subnet) ≡ true
    → taken ipam q ≡ true
    → clash p q ≡ false
free_clash ipam p q a e c h = elim (Bool-cases (clash p q)) [
  | inr apart ↦ apart
  | inl both ↦
      let (same, address) = clash_same p q both in
      let gone =
        taken_at-ne (pool_of ipam q.subnet) a q.ipv4 h
          (same_address-eq a p.ipv4 q.ipv4 e address) in
      absurd (false≢true (sym (rw (← same) at gone) ∙ c))
]

-- A free address clashes with no row.
free_apart :
    (ipam : Ipam) (p : Port) (a : ℕ) (rows : List Port)
    → p.ipv4 ≡ some a
    → contains a (pool_of ipam p.subnet) ≡ true
    → all (taken ipam) rows ≡ true
    → any (clash p) rows ≡ false
free_apart ipam p a [] e c h = refl
free_apart ipam p a (q ∷ rows) e c h =
    ground (arith, free_clash ipam p q a e c, free_apart ipam p a rows e c)

-- A row with an address that was just taken from the free ones keeps the rows consistent.
pub IsConsistent-cons :
    (ipam after : Ipam) (rows : List Port) (p : Port) (a : ℕ)
    → IsConsistent ipam rows
    → Took p.subnet a ipam after
    → p.ipv4 ≡ some a
    → contains a (pool_of ipam p.subnet) ≡ true
    → IsConsistent after (p ∷ rows)
IsConsistent-cons ipam after rows p a inv took e c = record {
  valid = Took-IsValid p.subnet a ipam after took inv.valid;
  held = ground (
    arith,
    e,
    Took-gone p.subnet a ipam after took,
    Took-held p.subnet a ipam after took rows inv.held,
  );
  separate = ground (arith, inv.separate, free_apart ipam p a rows e c inv.held);
}

pub IsConsistent-drop :
    (ipam after : Ipam) (rows : List Port) (k a : ℕ)
    → IsConsistent ipam rows
    → Took k a ipam after
    → IsConsistent after rows
IsConsistent-drop ipam after rows k a inv took = record {
  valid = Took-IsValid k a ipam after took inv.valid;
  held = Took-held k a ipam after took rows inv.held;
  separate = inv.separate;
}

taken-same :
    (ipam final : Ipam) (rows : List Port)
    → ((j : ℕ) → pool_of final j ≡ pool_of ipam j)
    → all (taken ipam) rows ≡ true
    → all (taken final) rows ≡ true
taken-same ipam final [] same h = refl
taken-same ipam final (p ∷ rows) same h =
    ground
      (arith, ap (λ (q : Pool). taken_at q p.ipv4) (same p.subnet), taken-same ipam final rows same)

pub IsConsistent-same :
    (ipam final : Ipam) (rows : List Port)
    → ((j : ℕ) → pool_of final j ≡ pool_of ipam j)
    → IsConsistent ipam rows
    → IsConsistent final rows
IsConsistent-same ipam final rows same inv = record {
  valid = λ k. rw (same k) (inv.valid k);
  held = taken-same ipam final rows same inv.held;
  separate = inv.separate;
}

pub find_subnet-append_port :
    (k : ℕ) (p : Port) (m : SubnetMap) → find_subnet (append_port k p m) ≡ find_subnet m
unfolding find_subnet append_port
find_subnet-append_port k p [] = refl
find_subnet-append_port k p ((subnet, ports) ∷ m) = ground (arith, find_subnet-append_port k p m)
