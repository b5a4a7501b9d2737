-- ===== src/Network/Flat/Routes.antt =====
-- The destinations of static routes. RFC 3442 writes those octets of a destination that its prefix
-- reaches into, zeros included, and reads as many.
use genesis_core.Common.{ℕ, zero, suc, ◌==◌, ◌≡◌, refl, List, [], ◌∷◌, ◌++◌, arith, if◌then◌else◌}
use genesis_core.Network.Flat.Config.{mask_of}

abbrev pub zeros_of : ℕ → List ℕ
zeros_of zero = []
zeros_of (suc n) = 0 ∷ zeros_of n

mask_of-zeros_of : (n : ℕ) → mask_of (zeros_of n) ≡ []
unfolding mask_of
mask_of-zeros_of zero = refl
mask_of-zeros_of (suc n) = let ih = mask_of-zeros_of n in ground arith

-- Of a destination whose last significant octet is not zero the mask is its significant octets, as the
-- RFC has it; where that octet is zero it is left out, with the zeros before it.
pub mask_of_lem :
    (front : List ℕ) (d n : ℕ)
    → mask_of (front ++ d ∷ zeros_of n) ≡ (if d == 0 then mask_of front else front ++ d ∷ [])
unfolding mask_of
mask_of_lem [] d n = let rest = mask_of-zeros_of n in ground arith
mask_of_lem (e ∷ []) d n = let ih = mask_of_lem [] d n in ground arith
mask_of_lem (e ∷ f ∷ front) d n = let ih = mask_of_lem (f ∷ front) d n in ground arith
