-- ===== src/Compute/Scheduler/Weights/Sums.antt =====
-- The weights that the weighers of exordos_core/compute/scheduler/service.py give, added up at each
-- position.
use genesis_core.Common.{
  ◌≡◌, refl, sym, ◌∙◌, ap, inl, inr, List, [], ◌∷◌, arith, Member, length, All, suc, zero, ℕ, ◌<◌,
}
use genesis_core.Compute.Scheduler.Weights.{Floats, add_weights, zeros, accumulate}

module _ (floats : Floats) where
  open floats use {F, zero_weight, add}

  -- The weight at a position, zero behind the end.
  abbrev pub weight_at : ℕ → List F → F
  weight_at i [] = zero_weight
  weight_at zero (w ∷ ws) = w
  weight_at (suc i) (w ∷ ws) = weight_at i ws

  -- What the weighers give to the candidate at a position, added up from zero in their order.
  abbrev pub total_from : {A : Type 0} → F → List (List A → List F) → List A → ℕ → F
  total_from acc [] cs i = acc
  total_from acc (weigher ∷ more) cs i = total_from (add acc (weight_at i (weigher cs))) more cs i

  abbrev pub total : {A : Type 0} → List (List A → List F) → List A → ℕ → F
  total weighers cs i = total_from zero_weight weighers cs i

  -- The sums of the weights that the weighers give to each candidate.
  abbrev pub weights : {A : Type 0} → List (List A → List F) → List A → List F
  weights weighers cs = accumulate floats weighers cs (zeros floats cs)

  length-add_weights :
      (vs ws : List F) → length vs ≡ length ws → length (add_weights floats vs ws) ≡ length ws
  unfolding add_weights
  length-add_weights [] [] l = refl
  length-add_weights [] (w ∷ ws) l = absurd (omega arith)
  length-add_weights (v ∷ vs) [] l = refl
  length-add_weights (v ∷ vs) (w ∷ ws) l = ap suc (length-add_weights vs ws (omega arith))

  pub length-zeros : {A : Type 0} (cs : List A) → length (zeros floats cs) ≡ length cs
  length-zeros [] = refl
  length-zeros (c ∷ cs) = ap suc (length-zeros cs)

  pub length-accumulate :
      {A : Type 0} (weighers : List (List A → List F)) (cs : List A) (acc : List F)
      → All (λ weigher. length (weigher cs) ≡ length cs) weighers
      → length acc ≡ length cs
      → length (accumulate floats weighers cs acc) ≡ length cs
  unfolding accumulate
  length-accumulate [] cs acc each l = l
  length-accumulate (weigher ∷ more) cs acc each l =
      length-accumulate more cs (add_weights floats acc (weigher cs)) each.1
        (length-add_weights acc (weigher cs) (l ∙ sym each.0) ∙ each.0)

  weight_at-add_weights :
      (i : ℕ) (vs ws : List F)
      → i < length vs
      → i < length ws
      → weight_at i (add_weights floats vs ws) ≡ add (weight_at i vs) (weight_at i ws)
  unfolding add_weights
  weight_at-add_weights i [] ws h k = absurd (omega arith)
  weight_at-add_weights i (v ∷ vs) [] h k = absurd (omega arith)
  weight_at-add_weights zero (v ∷ vs) (w ∷ ws) h k = refl
  weight_at-add_weights (suc i) (v ∷ vs) (w ∷ ws) h k =
      weight_at-add_weights i vs ws (omega arith) (omega arith)

  weight_at-accumulate :
      {A : Type 0} (i : ℕ) (weighers : List (List A → List F)) (cs : List A) (acc : List F)
      → All (λ weigher. length (weigher cs) ≡ length cs) weighers
      → length acc ≡ length cs
      → i < length cs
      → weight_at i (accumulate floats weighers cs acc) ≡ total_from (weight_at i acc) weighers cs i
  unfolding accumulate
  weight_at-accumulate i [] cs acc each l h = refl
  weight_at-accumulate i (weigher ∷ more) cs acc each l h =
      weight_at-accumulate i more cs (add_weights floats acc (weigher cs)) each.1
        (length-add_weights acc (weigher cs) (l ∙ sym each.0) ∙ each.0) h
      ∙ ap (λ a. total_from a more cs i)
          (weight_at-add_weights i acc (weigher cs) (omega (arith, l)) (omega (arith, each.0)))

  weight_at-zeros : {A : Type 0} (i : ℕ) (cs : List A) → weight_at i (zeros floats cs) ≡ zero_weight
  weight_at-zeros i [] = refl
  weight_at-zeros zero (c ∷ cs) = refl
  weight_at-zeros (suc i) (c ∷ cs) = weight_at-zeros i cs

  pub weight_at-weights :
      {A : Type 0} (i : ℕ) (weighers : List (List A → List F)) (cs : List A)
      → All (λ weigher. length (weigher cs) ≡ length cs) weighers
      → i < length cs
      → weight_at i (weights weighers cs) ≡ total weighers cs i
  weight_at-weights i weighers cs each h =
      weight_at-accumulate i weighers cs (zeros floats cs) each (length-zeros cs) h
      ∙ ap (λ a. total_from a weighers cs i) (weight_at-zeros i cs)

  pub weight_at-Member : (i : ℕ) (ws : List F) → i < length ws → Member (weight_at i ws) ws
  weight_at-Member i [] h = absurd (omega arith)
  weight_at-Member zero (w ∷ ws) h = inl refl
  weight_at-Member (suc i) (w ∷ ws) h = inr (weight_at-Member i ws (omega arith))
