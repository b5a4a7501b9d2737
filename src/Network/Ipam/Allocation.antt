-- ===== src/Network/Ipam/Allocation.antt =====
-- What `allocate_ip` and `deallocate_ip` of exordos_core/network/ipam.py do to the free addresses.
use genesis_core.Common.{
  ℕ, ◌<◌, ◌≤◌, ◌≡◌, Bool, ◌≢◌, refl, subst, sym, ◌∙◌, ap, ◌==◌, inl, inr, ◌&&◌, not, true, Option,
  none, some, [], ◌∷◌, arith, if◌then◌else◌, Option-cases,
}
use native.Mathlib.Decide.{ℕ_discrete}
use genesis_core.Common.Dict
use genesis_core.Common.Dict.{Dict, nat_key}
use genesis_core.Common.Outcome.{ok_chain, Outcome, ok, raised}
use genesis_core.Network.Ipam.{
  Pool, occupy_ip, deallocate_in, take_first, Ipam, IpamError, no_ips_available, undefined_subnet,
  allocate_from, allocate_ip, deallocate_ip,
}
use genesis_core.Network.Ipam.Pools.{
  contains, IsValid, above-occupy_ip, contains-occupy_ip, deallocate_in-occupy_ip,
  take_first-contains,
}

-- The free addresses of a subnet; none where the subnet is not known.
abbrev pub pool_of : Ipam → ℕ → Pool
pool_of ipam k = elim (Dict.get k ipam.pool_map) [ none ↦ [] | some pool ↦ pool ]

pub pool_of-put :
    (m : Dict ℕ Pool) (k j : ℕ) (p : Pool)
    → pool_of (record { pool_map = Dict.put k p m }) j
      ≡ (if k == j then p else pool_of (record { pool_map = m }) j)
pool_of-put m k j p = ground (arith, Dict.get-put k j p m)

pub pool_of-put_self :
    (m : Dict ℕ Pool) (k : ℕ) (p : Pool) → pool_of (record { pool_map = Dict.put k p m }) k ≡ p
pool_of-put_self m k p = ground (arith, Dict.get-put_self k p m)

pub pool_of-put_ne :
    (m : Dict ℕ Pool) (k j : ℕ) (p : Pool)
    → j ≢ k
    → pool_of (record { pool_map = Dict.put k p m }) j ≡ pool_of (record { pool_map = m }) j
pool_of-put_ne m k j p h = pool_of-put m k j p ∙ ground arith

take_first-eq : (first : ℕ × ℕ) (rest : Pool) → take_first (first ∷ rest) ≢ none
unfolding take_first
take_first-eq (s, e) rest = λ h. cc

-- A pool hands out one of its addresses by `occupy_ip`, with or without a target.
pub allocate_from-occupies :
    (target : Option ℕ) (p : Pool) {a : ℕ} {p' : Pool}
    → IsValid p
    → allocate_from target p ≡ ok (a, p')
    → p' ≡ occupy_ip a p
unfolding allocate_from
allocate_from-occupies target [] v h = cc
allocate_from-occupies (some t) (f ∷ p) v h = ground arith
allocate_from-occupies none (f ∷ p) {a} {p'} v h = elim (Option-cases (take_first (f ∷ p))) [
  | inl e ↦ absurd (take_first-eq f p e)
  | inr (t, e) ↦ (take_first-contains 0 a (f ∷ p) v (ground arith)).1
]

-- What an allocation of `a` does: the subnet's pool loses `a`, stays valid, and nothing else moves.
pub record Took (k a : ℕ) (before after : Ipam) : Type 0 where
  pub occupied : pool_of after k ≡ occupy_ip a (pool_of before k)
  pub valid : IsValid (pool_of after k)
  pub members :
      (b : ℕ) → contains b (pool_of after k) ≡ (contains b (pool_of before k) && not (b == a))
  pub others : (j : ℕ) → j ≢ k → pool_of after j ≡ pool_of before j

Took-put :
    (ipam : Ipam) (k a : ℕ) (p' : Pool)
    → IsValid (pool_of ipam k)
    → p' ≡ occupy_ip a (pool_of ipam k)
    → Took k a ipam (record { pool_map = Dict.put k p' ipam.pool_map })
Took-put ipam k a p' v h =
    let now = pool_of-put_self ipam.pool_map k p' ∙ h in
    record {
      occupied = now;
      valid = rw now (above-occupy_ip a 0 (pool_of ipam k) v);
      members = λ b. rw now (contains-occupy_ip a b 0 (pool_of ipam k) v);
      others = λ j ne. pool_of-put_ne ipam.pool_map k j p' ne;
    }

-- Inversion of a successful `allocate_ip`.
allocate_ip-eq_ok :
    (subnet : ℕ) (target : Option ℕ) (ipam : Ipam) {a : ℕ} {after : Ipam}
    → allocate_ip subnet target ipam ≡ ok (a, after)
    → (p' : Pool) × (allocate_from target (pool_of ipam subnet) ≡ ok (a, p'))
      × (after ≡ record { pool_map = Dict.put subnet p' ipam.pool_map })
unfolding allocate_ip
allocate_ip-eq_ok subnet target ipam {a} {after} h =
    elim (Option-cases (Dict.get subnet ipam.pool_map)) [
      | inl unknown ↦ absurd (ground arith)
      | inr (pool, known) ↦
          let stored : ℕ × Pool → Outcome IpamError (ℕ × Ipam) =
            λ t. ok (t.0, record { pool_map = Dict.put subnet t.1 ipam.pool_map }) in
          let (taken, from, made) =
            ok_chain (allocate_from target pool) stored {b = (a, after)} (ground (arith, known)) in
          (taken.1, ground (arith, known), ground arith)
    ]

-- Where the free ranges of the subnet are valid (in order, each below the next, with a gap between),
-- a successful allocation, with a target or without, takes exactly the address that it returns: of
-- the subnet no other address is taken and the returned one is free no more, and the other subnets
-- keep their pools.
pub allocate_ip-Took :
    (subnet : ℕ) (target : Option ℕ) (ipam : Ipam) {a : ℕ} {after : Ipam}
    → IsValid (pool_of ipam subnet)
    → allocate_ip subnet target ipam ≡ ok (a, after)
    → Took subnet a ipam after
allocate_ip-Took subnet target ipam {a} {after} v h =
    let (p', from, made) = allocate_ip-eq_ok subnet target ipam h in
    subst (Took subnet a ipam) (sym made)
      (Took-put ipam subnet a p' v (allocate_from-occupies target (pool_of ipam subnet) v from))

allocate_from-least :
    (p : Pool) {a : ℕ} {p' : Pool} (b : ℕ)
    → IsValid p
    → allocate_from none p ≡ ok (a, p')
    → (contains a p ≡ true) × (contains b p ≡ true → a ≤ b)
unfolding allocate_from
allocate_from-least [] b v h = cc
allocate_from-least (f ∷ p) {a} {p'} b v h = elim (Option-cases (take_first (f ∷ p))) [
  | inl e ↦ absurd (take_first-eq f p e)
  | inr (t, e) ↦
      let facts = take_first-contains 0 b (f ∷ p) {a = a} {p' = p'} v (ground arith) in
      (facts.0, facts.2)
]

-- With no target the returned address was free, and no free address of the subnet is below it.
pub allocate_ip_least :
    (subnet : ℕ) (ipam : Ipam) {a : ℕ} {after : Ipam}
    → IsValid (pool_of ipam subnet)
    → allocate_ip subnet none ipam ≡ ok (a, after)
    → (contains a (pool_of ipam subnet) ≡ true)
      × ((b : ℕ) → contains b (pool_of ipam subnet) ≡ true → a ≤ b)
allocate_ip_least subnet ipam v h =
    let (p', from, made) = allocate_ip-eq_ok subnet none ipam h in
    let least = λ (b : ℕ). allocate_from-least (pool_of ipam subnet) b v from in
    ((least 0).0, λ b. (least b).1)

allocate_from_total :
    (target : Option ℕ) (p : Pool) (b : ℕ)
    → contains b p ≡ true
    → (r : ℕ × Pool) × (allocate_from target p ≡ ok r)
unfolding allocate_from take_first
allocate_from_total target [] b h = cc
allocate_from_total (some t) (f ∷ p) b h = ((t, occupy_ip t (f ∷ p)), refl)
allocate_from_total none ((s, e) ∷ p) b h = (_, refl)

-- While a subnet has a free address, `allocate_ip` returns.
pub allocate_ip_total :
    (subnet : ℕ) (target : Option ℕ) (ipam : Ipam) (b : ℕ)
    → contains b (pool_of ipam subnet) ≡ true
    → (r : ℕ × Ipam) × (allocate_ip subnet target ipam ≡ ok r)
unfolding allocate_ip
allocate_ip_total subnet target ipam b h = elim (Option-cases (Dict.get subnet ipam.pool_map)) [
  | inl unknown ↦ absurd (ground (arith, unknown))
  | inr (pool, known) ↦
      let (r, done) = allocate_from_total target pool b (ground (arith, known)) in
      ((r.0, record { pool_map = Dict.put subnet r.1 ipam.pool_map }), ground (arith, known))
]

-- With no free address there is none to hand out, whatever the target: both errors, told apart by
-- whether the subnet is known.
pub allocate_ip_exhausted :
    (subnet : ℕ) (target : Option ℕ) (ipam : Ipam)
    → (Dict.get subnet ipam.pool_map ≡ none
        → allocate_ip subnet target ipam ≡ raised undefined_subnet)
      × (Dict.get subnet ipam.pool_map ≡ some []
          → allocate_ip subnet target ipam ≡ raised no_ips_available)
unfolding allocate_ip allocate_from
allocate_ip_exhausted subnet target ipam = (λ h. ground (arith, h), λ h. ground (arith, h))

known_of_take :
    (subnet : ℕ) (ipam : Ipam) (p : Pool) (address : ℕ)
    → (after : Ipam) → after ≡ record { pool_map = Dict.put subnet p ipam.pool_map }
    → (final : Ipam) × (deallocate_ip subnet address after ≡ ok final)
      × (pool_of final subnet ≡ deallocate_in address p)
      × ((j : ℕ) → j ≢ subnet → pool_of final j ≡ pool_of ipam j)
unfolding deallocate_ip
known_of_take subnet ipam p address after made =
    let m : Dict ℕ Pool = Dict.put subnet p ipam.pool_map in
    let m' : Dict ℕ Pool = Dict.put subnet (deallocate_in address p) m in
    (
      record { pool_map = m' },
      rw made (ground (arith, Dict.get-put_self subnet p ipam.pool_map)),
      pool_of-put_self m subnet (deallocate_in address p),
      λ j ne.
          pool_of-put_ne m subnet j (deallocate_in address p) ne
          ∙ pool_of-put_ne ipam.pool_map subnet j p ne,
    )

-- The address that is asked for, if one is, is free.
abbrev pub is_open : Option ℕ → Pool → Bool
is_open none pool = true
is_open (some target) pool = contains target pool

was_free :
    (subnet : ℕ) (target : Option ℕ) (ipam : Ipam) {a : ℕ} {after : Ipam}
    (v : IsValid (pool_of ipam subnet)) (open_target : is_open target (pool_of ipam subnet) ≡ true)
    (h : allocate_ip subnet target ipam ≡ ok (a, after))
    → contains a (pool_of ipam subnet) ≡ true
was_free subnet none ipam v open_target h = (allocate_ip_least subnet ipam v h).0
was_free subnet (some target) ipam {a} v open_target h =
    let (p', from, made) = allocate_ip-eq_ok subnet (some target) ipam h in
    target_of target (pool_of ipam subnet) from open_target
  where
    target_of :
        (target : ℕ) (p : Pool) {a : ℕ} {p' : Pool}
        (from : allocate_from (some target) p ≡ ok (a, p')) (there : contains target p ≡ true)
        → contains a p ≡ true
    target_of target [] from there = unfold allocate_from in cc
    target_of target (r ∷ p) from there = unfold allocate_from in ground arith

-- Where the free ranges of the subnet are valid (in order, each below the next, with a gap between),
-- an allocation without a target, or with one that is free, is undone by giving the address back:
-- every subnet has the pool that it had.
pub deallocate_ip-allocate_ip :
    (subnet : ℕ) (target : Option ℕ) (ipam : Ipam) {a : ℕ} {after : Ipam}
    (v : IsValid (pool_of ipam subnet)) (open_target : is_open target (pool_of ipam subnet) ≡ true)
    (h : allocate_ip subnet target ipam ≡ ok (a, after))
    → (final : Ipam) × (deallocate_ip subnet a after ≡ ok final)
      × ((j : ℕ) → pool_of final j ≡ pool_of ipam j)
deallocate_ip-allocate_ip subnet target ipam {a} {after} v open_target h =
    let (p', from, made) = allocate_ip-eq_ok subnet target ipam h in
    let (final, gave, self, others) = known_of_take subnet ipam p' a after made in
    let taken = allocate_from-occupies target (pool_of ipam subnet) v from in
    let free = was_free subnet target ipam v open_target h in
    let self' : pool_of final subnet ≡ pool_of ipam subnet =
      self
      ∙ ap (deallocate_in a) taken
      ∙ deallocate_in-occupy_ip a 0 (pool_of ipam subnet) v free in
    (
      final,
      gave,
      λ j. elim (ℕ_discrete j subnet) [ yes same ↦ rw same self' | no ne ↦ others j ne ],
    )

-- The address at the end of a longer free range is given back once more: the pool then holds it
-- twice, and is no longer a list of separate ranges.
pub deallocate_in_twice :
    (s e : ℕ)
    → s < e
    → IsValid ((s, e) ∷ [])
      × (deallocate_in e ((s, e) ∷ []) ≡ (s, e) ∷ (e, e) ∷ [])
      × ¬ IsValid (deallocate_in e ((s, e) ∷ []))
unfolding deallocate_in
deallocate_in_twice s e h = (ground arith, ground arith, λ v. ground arith)
