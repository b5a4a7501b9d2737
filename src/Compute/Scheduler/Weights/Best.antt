-- ===== src/Compute/Scheduler/Weights/Best.antt =====
-- What the choice by weights in exordos_core/compute/scheduler/service.py returns.
use genesis_core.Common.{
  true, false, ◌≡◌, refl, ap, ◌≢◌, ◌⊎◌, inl, inr, none, some, List, [], ◌∷◌, arith, Member,
  Member-if, length, All, Bool-cases, if◌then◌else◌, suc, zero, ℕ, ◌<◌,
}
use genesis_core.Compute.Scheduler.Weights.{
  Floats, broken, chosen, zeros, accumulate, max_of, at_weight, choose_by, choose,
}
use genesis_core.Compute.Scheduler.Weights.Sums.{
  weights, weight_at, total, length-accumulate, length-zeros, weight_at-weights, weight_at-Member,
}

-- The order of floats other than NaN.
pub record IsOrdered (floats : Floats) : Type 0 where
  pub lt_irrefl : (a : floats.F) → floats.lt a a ≡ false
  pub not_lt_trans :
      (a b c : floats.F) → floats.lt a b ≡ false → floats.lt b c ≡ false → floats.lt a c ≡ false
  pub lt_asymm : (a b : floats.F) → floats.lt a b ≡ true → floats.lt b a ≡ false
  pub eq_refl : (a : floats.F) → floats.eq a a ≡ true
  pub eq_not_lt : (a b : floats.F) → floats.eq a b ≡ true → floats.lt a b ≡ false

module _ (floats : Floats) where
  open floats use {F, zero_weight, add, lt, eq}

  -- The weight and the candidate at one place of the two lists.
  abbrev pub Weighed : {A : Type 0} → F → A → List F → List A → Type 0
  Weighed w c [] cs = ⊥
  Weighed w c (v ∷ vs) [] = ⊥
  Weighed w c (v ∷ vs) (d ∷ ds) = ((v ≡ w) × (d ≡ c)) ⊎ Weighed w c vs ds

  -- The candidate stands at the position.
  abbrev pub StandsAt : {A : Type 0} → A → ℕ → List A → Type 0
  StandsAt c i [] = ⊥
  StandsAt c zero (d ∷ ds) = d ≡ c
  StandsAt c (suc i) (d ∷ ds) = StandsAt c i ds

  at_weight-Weighed :
      {A : Type 0} (value : F) (ws : List F) (cs : List A) {c : A}
      → at_weight floats value ws cs ≡ some c
      → (w : F) × (eq w value ≡ true) × Weighed w c ws cs
  unfolding at_weight
  at_weight-Weighed value [] cs h = cc
  at_weight-Weighed value (w ∷ ws) [] h = cc
  at_weight-Weighed value (w ∷ ws) (d ∷ ds) h = elim (Bool-cases (eq w value)) [
    | inl here ↦ (w, here, inl (refl, ground (arith, here)))
    | inr there ↦
        let (v, same, later) = at_weight-Weighed value ws ds (ground (arith, there)) in
        (v, same, inr later)
  ]

  Weighed-Member :
      {A : Type 0} (w : F) (c : A) (ws : List F) (cs : List A) → Weighed w c ws cs → Member c cs
  Weighed-Member w c [] cs h = absurd h
  Weighed-Member w c (v ∷ vs) [] h = absurd h
  Weighed-Member w c (v ∷ vs) (d ∷ ds) (inl (_, e)) = inl e
  Weighed-Member w c (v ∷ vs) (d ∷ ds) (inr h) = inr (Weighed-Member w c vs ds h)

  choose_by-Weighed :
      {A : Type 0} (w : F) (ws : List F) (cs : List A) {c : A}
      → choose_by floats (w ∷ ws) cs ≡ some c
      → (v : F) × (eq v (max_of floats w ws) ≡ true) × Weighed v c (w ∷ ws) cs
  unfolding choose_by
  choose_by-Weighed w ws cs h = at_weight-Weighed (max_of floats w ws) (w ∷ ws) cs h

  choose_by-Member :
      {A : Type 0} (ws : List F) (cs : List A) {c : A}
      → choose_by floats ws cs ≡ some c
      → Member c cs
  choose_by-Member [] cs h = unfold choose_by in cc
  choose_by-Member (w ∷ ws) cs {c} h =
      let (v, _, at) = choose_by-Weighed w ws cs h in Weighed-Member v c (w ∷ ws) cs at

  -- What is chosen is one of the candidates.
  pub choose-Member :
      {A : Type 0} (weighers : List (List A → List F)) (cs : List A) {c : A}
      → choose floats weighers cs ≡ chosen c
      → Member c cs
  unfolding choose
  choose-Member weighers [] h = cc
  choose-Member weighers (d ∷ ds) {c} h =
      choose_by-Member (accumulate floats weighers (d ∷ ds) (zeros floats (d ∷ ds))) (d ∷ ds)
        (ground arith)

  module _ (ordered : IsOrdered floats) where
    open ordered use {lt_irrefl, not_lt_trans, lt_asymm, eq_refl, eq_not_lt}

    max_of-ge : (best : F) (ws : List F) → lt (max_of floats best ws) best ≡ false
    unfolding max_of
    max_of-ge best [] = lt_irrefl best
    max_of-ge best (w ∷ ws) = elim (Bool-cases (lt best w)) [
      | inl up ↦
          rw up (not_lt_trans (max_of floats w ws) w best (max_of-ge w ws) (lt_asymm best w up))
      | inr stay ↦ rw stay (max_of-ge best ws)
    ]

    -- No weight is above the maximum.
    max_of-greatest :
        (best v : F) (ws : List F) → Member v (best ∷ ws) → lt (max_of floats best ws) v ≡ false
    unfolding max_of
    max_of-greatest best v ws (inl e) = rw (← e) (max_of-ge best ws)
    max_of-greatest best v [] (inr m) = absurd m
    max_of-greatest best v (w ∷ ws) (inr (inl e)) = elim (Bool-cases (lt best w)) [
      | inl up ↦ rw (up, ← e) (max_of-ge w ws)
      | inr stay ↦
          rw (stay, ← e) (not_lt_trans (max_of floats best ws) best w (max_of-ge best ws) stay)
    ]
    max_of-greatest best v (w ∷ ws) (inr (inr m)) =
        max_of-greatest (if lt best w then w else best) v ws (inr m)

    max_of-Member : (best : F) (ws : List F) → Member (max_of floats best ws) (best ∷ ws)
    unfolding max_of
    max_of-Member best [] = inl refl
    max_of-Member best (w ∷ ws) =
        Member-if (lt best w) best w (max_of floats (if lt best w then w else best) ws) ws
          (max_of-Member (if lt best w then w else best) ws)

    choose_by-best :
        {A : Type 0} (ws : List F) (cs : List A) {c : A}
        → choose_by floats ws cs ≡ some c
        → (v : F) × Weighed v c ws cs × ((x : F) → Member x ws → lt v x ≡ false)
    choose_by-best [] cs h = unfold choose_by in cc
    choose_by-best (w ∷ ws) cs h =
        let (v, top, at) = choose_by-Weighed w ws cs h in
        (
          v,
          at,
          λ x m.
              not_lt_trans v (max_of floats w ws) x (eq_not_lt v (max_of floats w ws) top)
                (max_of-greatest w x ws m),
        )

    at_weight-total :
        {A : Type 0} (value : F) (ws : List F) (cs : List A)
        → Member value ws
        → length ws ≡ length cs
        → at_weight floats value ws cs ≢ none
    unfolding at_weight
    at_weight-total value [] cs m l h = m
    at_weight-total value (w ∷ ws) [] m l h = absurd (omega arith)
    at_weight-total value (w ∷ ws) (c ∷ cs) (inl e) l h =
        ground (arith, eq_refl value, ap (λ (x : F). eq x value) e)
    at_weight-total value (w ∷ ws) (c ∷ cs) (inr m) l h =
        ground (arith, at_weight-total value ws cs m)

    choose_by-total :
        {A : Type 0} (ws : List F) (c : A) (cs : List A)
        → length ws ≡ length (c ∷ cs)
        → choose_by floats ws (c ∷ cs) ≢ none
    unfolding choose_by
    choose_by-total [] c cs l h = absurd (omega arith)
    choose_by-total (w ∷ ws) c cs l h =
        at_weight-total (max_of floats w ws) (w ∷ ws) (c ∷ cs) (max_of-Member w ws) l h

    -- Where each weigher returns a weight for each candidate, the choice raises nothing.
    pub choose-ne-broken :
        {A : Type 0} (weighers : List (List A → List F)) (cs : List A)
        → All (λ weigher. length (weigher cs) ≡ length cs) weighers
        → choose floats weighers cs ≢ broken
    unfolding choose
    choose-ne-broken weighers [] each h = cc
    choose-ne-broken weighers (c ∷ cs) each h =
        choose_by-total (weights floats weighers (c ∷ cs)) c cs
          (length-accumulate floats weighers (c ∷ cs) (zeros floats (c ∷ cs)) each
            (length-zeros floats (c ∷ cs)))
          (ground arith)

    Weighed-position :
        {A : Type 0} (w : F) (c : A) (ws : List F) (cs : List A)
        → Weighed w c ws cs
        → (i : ℕ) × (i < length cs) × StandsAt c i cs × (weight_at floats i ws ≡ w)
    Weighed-position w c [] cs h = absurd h
    Weighed-position w c (v ∷ vs) [] h = absurd h
    Weighed-position w c (v ∷ vs) (d ∷ ds) (inl (same, at)) = (0, omega arith, at, same)
    Weighed-position w c (v ∷ vs) (d ∷ ds) (inr h) =
        let (i, inside, at, same) = Weighed-position w c vs ds h in (suc i, omega arith, at, same)

    -- Where each weigher returns a weight for each candidate, the chosen candidate stands at
    -- a position whose weights, added up over the weighers, are not below those of any position.
    pub choose-best :
        {A : Type 0} (weighers : List (List A → List F)) (cs : List A) {c : A}
        → All (λ weigher. length (weigher cs) ≡ length cs) weighers
        → choose floats weighers cs ≡ chosen c
        → (i : ℕ) × (i < length cs)
          × StandsAt c i cs
          × ((j : ℕ)
              → j < length cs
              → lt (total floats weighers cs i) (total floats weighers cs j) ≡ false)
    unfolding choose
    choose-best weighers [] each h = cc
    choose-best weighers (d ∷ ds) each h =
        let cs = d ∷ ds in
        let ws = weights floats weighers cs in
        let (v, at, top) = choose_by-best ws cs (ground arith) in
        let (i, inside, stands, same) = Weighed-position v _ ws cs at in
        let l =
          length-accumulate floats weighers cs (zeros floats cs) each (length-zeros floats cs) in
        (
          i,
          inside,
          stands,
          λ j below.
              rw
                (
                  ← weight_at-weights floats i weighers cs each inside,
                  ← weight_at-weights floats j weighers cs each below,
                  same,
                )
                (top (weight_at floats j ws) (weight_at-Member floats j ws (omega (arith, l)))),
        )
