-- ===== src/Network/Ipam/Pools.antt =====
-- A pool as a set of addresses: its ranges are sorted, and no two of them touch.
use genesis_core.Common.{
  ℕ, ◌+◌, ◌-◌, ◌≤◌, ◌<◌, ◌≡◌, ◌==◌, leb, ◌&&◌, ◌||◌, not, Bool, true, false, some, [], ◌∷◌, arith,
  refl,
}
use genesis_core.Network.Ipam.Ranges.{Pool, occupy_ip, extend_right, deallocate_in, take_first}

abbrev pub contains : ℕ → Pool → Bool
contains a [] = false
contains a ((s, e) ∷ rest) = (leb s a && leb a e) || contains a rest

-- Every range begins at `lo` or later, is not empty, and leaves a gap before the next one.
abbrev pub above : ℕ → Pool → Bool
above lo [] = true
above lo ((s, e) ∷ rest) = leb lo s && (leb s e && above (e + 2) rest)

abbrev pub IsValid : Pool → Type 0
IsValid p = above 0 p ≡ true

pub above_mono : (lo hi : ℕ) (p : Pool) → lo ≤ hi → above hi p ≡ true → above lo p ≡ true
above_mono lo hi [] h v = refl
above_mono lo hi ((s, e) ∷ p) h v = ground arith

pub contains-below : (a lo : ℕ) (p : Pool) → above lo p ≡ true → a < lo → contains a p ≡ false
contains-below a lo [] v h = refl
contains-below a lo ((s, e) ∷ p) v h = ground (arith, contains-below a (e + 2) p)

pub above-occupy_ip : (a lo : ℕ) (p : Pool) → above lo p ≡ true → above lo (occupy_ip a p) ≡ true
unfolding occupy_ip
above-occupy_ip a lo [] v = refl
above-occupy_ip a lo ((s, e) ∷ p) v = ground (
  arith,
  above-occupy_ip a (e + 2) p,
  above_mono (a + 2) (e + 2) p,
  above_mono (e + 1) (e + 2) p,
  above_mono lo (e + 2) p,
)

pub contains-occupy_ip :
    (a b lo : ℕ) (p : Pool)
    → above lo p ≡ true
    → contains b (occupy_ip a p) ≡ (contains b p && not (b == a))
unfolding occupy_ip
contains-occupy_ip a b lo [] v = refl
contains-occupy_ip a b lo ((s, e) ∷ p) v =
    ground (arith, contains-occupy_ip a b (e + 2) p, contains-below b (e + 2) p)

pub above-deallocate_in :
    (a lo : ℕ) (p : Pool)
    → above lo p ≡ true
    → contains a p ≡ false
    → lo ≤ a
    → above lo (deallocate_in a p) ≡ true
unfolding deallocate_in extend_right
above-deallocate_in a lo [] v h l = ground arith
above-deallocate_in a lo ((s, e) ∷ []) v h l = ground arith
above-deallocate_in a lo ((s, e) ∷ (s', e') ∷ p) v h l =
    ground (arith, above-deallocate_in a (e + 2) ((s', e') ∷ p))

contains-extend_right :
    (s a b : ℕ) (p : Pool)
    → s ≤ a
    → above (a + 1) p ≡ true
    → contains b (extend_right s a p) ≡ ((leb s b && leb b a) || contains b p)
unfolding extend_right
contains-extend_right s a b [] l v = refl
contains-extend_right s a b ((s', e') ∷ p) l v = ground arith

pub contains-deallocate_in :
    (a b lo : ℕ) (p : Pool)
    → above lo p ≡ true
    → contains a p ≡ false
    → contains b (deallocate_in a p) ≡ (contains b p || (b == a))
unfolding deallocate_in
contains-deallocate_in a b lo [] v h = ground arith
contains-deallocate_in a b lo ((s, e) ∷ p) v h =
    ground (arith, contains-deallocate_in a b (e + 2) p, contains-extend_right s a b p)

extend_right-above : (s a : ℕ) (p : Pool) → above (a + 2) p ≡ true → extend_right s a p ≡ (s, a) ∷ p
unfolding extend_right
extend_right-above s a [] v = refl
extend_right-above s a ((s', e') ∷ p) v = ground arith

deallocate_in-above : (a : ℕ) (p : Pool) → above (a + 2) p ≡ true → deallocate_in a p ≡ (a, a) ∷ p
unfolding deallocate_in
deallocate_in-above a [] v = refl
deallocate_in-above a ((s', e') ∷ p) v = ground arith

module _ (a s e : ℕ) (p : Pool) where
  deallocate_in-left : a + 1 ≡ s → deallocate_in a ((s, e) ∷ p) ≡ (a, e) ∷ p
  unfolding deallocate_in
  deallocate_in-left h = ground arith

  deallocate_in-right : s ≤ e → a ≡ e + 1 → deallocate_in a ((s, e) ∷ p) ≡ extend_right s a p
  unfolding deallocate_in
  deallocate_in-right l h = ground arith

  deallocate_in-later :
      s ≤ e → e + 1 < a → deallocate_in a ((s, e) ∷ p) ≡ (s, e) ∷ deallocate_in a p
  unfolding deallocate_in
  deallocate_in-later l h = ground arith

  extend_right-meet : s ≡ a + 1 → (r : ℕ) → extend_right r a ((s, e) ∷ p) ≡ (r, e) ∷ p
  unfolding extend_right
  extend_right-meet h r = ground arith

-- Giving back an address of a valid pool that was taken out restores the pool itself.
pub deallocate_in-occupy_ip :
    (a lo : ℕ) (p : Pool)
    → above lo p ≡ true
    → contains a p ≡ true
    → deallocate_in a (occupy_ip a p) ≡ p
unfolding occupy_ip
deallocate_in-occupy_ip a lo [] v h = cc
deallocate_in-occupy_ip a lo ((s, e) ∷ p) v h = ground (
  arith,
  deallocate_in-occupy_ip a (e + 2) p,
  contains-below a (e + 2) p,
  extend_right-above s a p,
  deallocate_in-above a p,
  deallocate_in-left a (s + 1) e p,
  deallocate_in-right a s (e - 1) p,
  deallocate_in-right a s (a - 1) ((a + 1, e) ∷ p),
  extend_right-meet a (a + 1) e p refl s,
  deallocate_in-later a s e (occupy_ip a p),
)

-- The first address of a valid pool is its least one.
pub take_first-contains :
    (lo b : ℕ) (p : Pool) {a : ℕ} {p' : Pool}
    → above lo p ≡ true
    → take_first p ≡ some (a, p')
    → (contains a p ≡ true) × (p' ≡ occupy_ip a p) × (contains b p ≡ true → a ≤ b)
unfolding take_first occupy_ip
take_first-contains lo b [] v h = cc
take_first-contains lo b ((s, e) ∷ p) v h =
    (ground arith, ground arith, λ c. ground (arith, contains-below b (e + 2) p))

-- How many addresses are free.
abbrev pub size : Pool → ℕ
size [] = 0
size ((s, e) ∷ rest) = (e + 1 - s) + size rest

pub size-occupy_ip :
    (a lo : ℕ) (p : Pool)
    → above lo p ≡ true
    → contains a p ≡ true
    → size (occupy_ip a p) + 1 ≡ size p
unfolding occupy_ip
size-occupy_ip a lo [] v h = cc
size-occupy_ip a lo ((s, e) ∷ p) v h =
    ground (arith, size-occupy_ip a (e + 2) p, contains-below a (e + 2) p)

-- A pool with a free address offers its first.
pub contains_of_size :
    (lo : ℕ) (p : Pool) → above lo p ≡ true → 0 < size p → (a : ℕ) × (contains a p ≡ true)
contains_of_size lo [] v h = absurd (omega arith)
contains_of_size lo ((s, e) ∷ p) v h = (s, ground arith)
