-- ===== src/Compute/Scheduler/Weights.antt =====
-- The choice of the best candidate in exordos_core/compute/scheduler/service.py. The weighers
-- return floats, which are here a type `F` with its zero, sum and order.
pub mod Best
pub mod Sums
use genesis_core.Common.{
  ℕ, suc, Bool, true, false, Option, none, some, List, [], ◌∷◌, if◌then◌else◌, ◌≡◌, Option-cases,
}

pub record Floats : Type 1 where
  pub F : Type 0
  pub zero_weight : F
  pub add : F → F → F
  pub lt : F → F → Bool
  pub eq : F → F → Bool

-- No candidates; the best of them; or an exception, as from `max([])`.
pub data Choice (A : Type 0) : Type 0 where
  nothing broken : Choice A
  chosen : A → Choice A

module _ (floats : Floats) where
  open floats use {F, zero_weight, add, lt, eq}

  -- `[w0 + w1 for w0, w1 in zip(accumulated_weights, weights)]`
  unfoldable pub add_weights : List F → List F → List F
  add_weights (v ∷ vs) (w ∷ ws) = add v w ∷ add_weights vs ws
  add_weights _ _ = []

  abbrev pub zeros {ℓ} : {A : Type ℓ} → List A → List F
  zeros [] = []
  zeros (_ ∷ xs) = zero_weight ∷ zeros xs

  unfoldable pub accumulate : {A : Type 0} → List (List A → List F) → List A → List F → List F
  unfolding add_weights
  accumulate [] candidates acc = acc
  accumulate (weigher ∷ more) candidates acc =
      accumulate more candidates (add_weights acc (weigher candidates))

  -- `max(weights)`: the first of the greatest.
  unfoldable pub max_of : F → List F → F
  max_of best [] = best
  max_of best (w ∷ ws) = max_of (if lt best w then w else best) ws

  -- `candidates[weights.index(value)]`; `none` stands for the exception.
  unfoldable pub at_weight : {A : Type 0} → F → List F → List A → Option A
  at_weight value (w ∷ ws) (c ∷ cs) = if eq w value then some c else at_weight value ws cs
  at_weight value _ _ = none

  unfoldable pub choose_by : {A : Type 0} → List F → List A → Option A
  unfolding max_of at_weight
  choose_by [] candidates = none
  choose_by (w ∷ ws) candidates = at_weight (max_of w ws) (w ∷ ws) candidates

  unfoldable pub choose : {A : Type 0} → List (List A → List F) → List A → Choice A
  unfolding accumulate choose_by
  choose weighers [] = nothing
  choose weighers (c ∷ cs) =
      elim (choose_by (accumulate weighers (c ∷ cs) (zeros (c ∷ cs))) (c ∷ cs)) [
        | none ↦ broken
        | some best ↦ chosen best
      ]
