-- ===== src/Values/Selection.antt =====
-- What a selected value, the latest value and an activated profile mean for a variable.
use genesis_core.Common.{
  ℕ, ◌==◌, ltb, ◌&&◌, ◌||◌, not, Bool, true, false, Option, none, some, List, [], ◌∷◌,
  if◌then◌else◌, any, all, select, ◌≡◌, refl, arith, Member, inl, inr, Member-if,
}
use genesis_core.Common.Outcome.{Outcome, ok, raised, Outcome-cases}
use genesis_core.Values.{
  Profile, Value, ValueError, Variable, by_selector, active, Tables, activated, activate,
  global_profile, is_current, latest_of, first_selected, values_of, set_value, actualize_variable,
  select_value, reselected, select_me,
}

-- Rows with the UUID of a value are that value.
abbrev pub is_consistent : Value → List Value → Bool
is_consistent value = all (λ x.
    not (x.uuid == value.uuid) || ((x.value == value.value) && (x.variable == value.variable)))

abbrev pub is_there : Value → List Value → Bool
is_there value = any (λ x. x.uuid == value.uuid)

abbrev gives : ℕ → Option Value → Bool
gives value none = false
gives value (some x) = x.value == value

selected_first :
    (value : Value) (xs : List Value)
    → is_consistent value xs ≡ true
    → is_there value xs ≡ true
    → gives value.value
        (first_selected (values_of value.variable (reselected value.variable (some value.uuid) xs)))
      ≡ true
unfolding reselected first_selected
selected_first value [] c h = ground arith
selected_first value (x ∷ xs) c h = ground (arith, selected_first value xs)

select_given :
    (value : ℕ) (xs : List Value) (v : Variable)
    → gives value (first_selected xs) ≡ true
    → select_value true xs v ≡ ok (record v { value = some value })
unfolding first_selected
select_given value [] v h = cc
select_given value (x ∷ xs) v h = ground (arith, select_given value xs v)

-- After `select_me`, a variable with a selector of the strategy "latest" is given the selected value
-- and becomes active, whenever its other values were made or selected.
pub select_me-actualize_variable :
    (tables : Tables) (value : Value) (v : Variable) (values' : List Value)
    → select_me v.uuid value tables.values ≡ ok values'
    → is_consistent value tables.values ≡ true
    → is_there value tables.values ≡ true
    → v.setter ≡ by_selector true
    → actualize_variable (record tables { values = values' }) v
      ≡ ok (record v { value = some value.value; status = active })
unfolding select_me actualize_variable set_value
select_me-actualize_variable tables value v values' h c there setter =
    let own : value.variable ≡ v.uuid = ground arith in
    let moved : values' ≡ reselected value.variable (some value.uuid) tables.values =
      ground arith in
    let given =
      select_given value.value
        (values_of value.variable (reselected value.variable (some value.uuid) tables.values)) v
        (selected_first value tables.values c there) in
    ground arith

abbrev pub not_later : Value → List Value → Bool
not_later best = all (λ x. not (ltb best.created_at x.created_at))

latest_of_bound :
    (k : ℕ) (best : Value) (vs : List Value)
    → ltb best.created_at k ≡ false
    → ltb (latest_of best vs).created_at k ≡ false
unfolding latest_of
latest_of_bound k best [] h = h
latest_of_bound k best (v ∷ vs) h =
    ground (arith, latest_of_bound k best vs, latest_of_bound k v vs)

swapped : {A : Type 0} (a x y : A) (xs : List A) → Member a (x ∷ y ∷ xs) → Member a (y ∷ x ∷ xs)
swapped a x y xs (inl e) = inr (inl e)
swapped a x y xs (inr (inl e)) = inl e
swapped a x y xs (inr (inr m)) = inr (inr m)

latest_of_there : (best : Value) (vs : List Value) → Member (latest_of best vs) (best ∷ vs)
unfolding latest_of
latest_of_there best [] = inl refl
latest_of_there best (v ∷ vs) =
    let next = if ltb v.created_at best.created_at then best else v in
    swapped (latest_of next vs) v best vs (
      Member-if (ltb v.created_at best.created_at) v best (latest_of next vs) vs
        (latest_of_there next vs))

latest_of_last : (best : Value) (vs : List Value) → not_later (latest_of best vs) (best ∷ vs) ≡ true
unfolding latest_of
latest_of_last best [] = ground arith
latest_of_last best (v ∷ vs) =
    let next = if ltb v.created_at best.created_at then best else v in
    ground (
      arith,
      latest_of_last next vs,
      latest_of_bound best.created_at next vs,
      latest_of_bound v.created_at next vs,
    )

none_selected :
    (xs : List Value) → any (λ x. x.manual_selected) xs ≡ false → first_selected xs ≡ none
unfolding first_selected
none_selected [] h = refl
none_selected (x ∷ xs) h = ground (arith, none_selected xs)

-- Without a selected value, a variable with a selector of the strategy "latest" is given one of its
-- own values, later than which none of them was made.
pub set_value_latest :
    (tables : Tables) (v : Variable) (first : Value) (others : List Value)
    → v.setter ≡ by_selector true
    → values_of v.uuid tables.values ≡ first ∷ others
    → any (λ x. x.manual_selected) (first ∷ others) ≡ false
    → (chosen : Value) × (set_value tables v ≡ ok (record v { value = some chosen.value }))
      × Member chosen (first ∷ others)
      × (not_later chosen (first ∷ others) ≡ true)
unfolding set_value
set_value_latest tables v first others setter own unselected =
    let none_there = none_selected (first ∷ others) unselected in
    (
      latest_of first others,
      ground arith,
      latest_of_there first others,
      latest_of_last first others,
    )

-- One row has the UUID, and it is that of a global profile.
abbrev pub one_global : ℕ → List Profile → Bool
one_global uuid [] = false
one_global uuid (p ∷ ps) =
    if p.uuid == uuid then p.is_global && not (any (λ q. q.uuid == uuid) ps) else one_global uuid ps

no_current :
    (uuid : ℕ) (ps : List Profile)
    → any (λ q. q.uuid == uuid) ps ≡ false
    → select is_current (activated uuid ps) ≡ []
unfolding activated
no_current uuid [] h = refl
no_current uuid (p ∷ ps) h = ground (arith, no_current uuid ps)

abbrev is_ok_with : ℕ → Outcome ValueError Profile → Bool
is_ok_with uuid (ok p) = p.uuid == uuid
is_ok_with uuid (raised e) = false

one_current :
    (uuid : ℕ) (ps : List Profile)
    → one_global uuid ps ≡ true
    → is_ok_with uuid (global_profile (activated uuid ps)) ≡ true
unfolding activated global_profile
one_current uuid [] h = cc
one_current uuid (p ∷ ps) h = ground (arith, one_current uuid ps, no_current uuid ps)

-- Once a global profile is activated, `global_profile` returns it and does not raise, whichever
-- profiles were active before.
pub activate-global_profile :
    (profile : Profile) (profiles profiles' : List Profile)
    → one_global profile.uuid profiles ≡ true
    → activate profile profiles ≡ ok profiles'
    → (p : Profile) × (global_profile profiles' ≡ ok p) × (p.uuid ≡ profile.uuid)
unfolding activate
activate-global_profile profile profiles profiles' one h =
    let current = one_current profile.uuid profiles one in
    elim (Outcome-cases (global_profile (activated profile.uuid profiles))) [
      | inl (e, refused) ↦ ground arith
      | inr (p, found) ↦ (p, ground arith, ground arith)
    ]
