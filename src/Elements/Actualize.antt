-- ===== src/Elements/Actualize.antt =====
-- `Resource.actualize` of exordos_core/elements/dm/models.py, for one resource. What
-- `render_target_state` returns or raises is an argument, so are the row that `_find_actual_resource`
-- reads, the hash of the kit, `calculate_hash`, and the `updated_at` that `update` leaves in a row.
use genesis_core.Common.{
  ℕ, ◌==◌, ◌≡◌, ◌&&◌, refl, not, Bool, true, false, Option, none, some, if◌then◌else◌, arith, ap,
  ◌∙◌,
}
use genesis_core.Common.Outcome.{Outcome, ok, raised, ◌>>=◌}
use genesis_core.Elements.Json.{Json}
use genesis_core.Elements.Engine.Model.{EngineError, key_error}

pub record Target : Type 0 where
  pub value : Json
  pub hash : ℕ
  pub full_hash : ℕ
  pub tracked_at : ℕ

pub record Actual : Type 0 where
  pub value : Json
  pub full_hash : ℕ

pub record State : Type 0 where
  pub actual : Option Actual
  pub target : Option Target
  pub full_hash : ℕ
  pub updated_at : ℕ

abbrev pub has_target : State → Bool
has_target state = elim state.target [ none ↦ false | some _ ↦ true ]

-- The columns of the row are the same. The fields of the target are not among them, nor is
-- `updated_at`, which only `update` sets.
abbrev pub SameRow : State → State → Type 0
SameRow old new =
    (old.actual ≡ new.actual) × (old.full_hash ≡ new.full_hash) × (has_target old ≡ has_target new)

-- The hash of the kit, and the `updated_at` with which `update` stores a row: of the row as it was
-- read and of the row as it is now.
module _ (hash : Json → ℕ) (update_time : State → State → ℕ) where
  abbrev pub update_resource : State → State → State
  update_resource old state = record state { updated_at = update_time old state }

  -- `_find_actual_resource`: the row is read only while none is known.
  abbrev pub find_actual_resource : Option Actual → Option Actual → Option Actual
  find_actual_resource found none = found
  find_actual_resource found (some actual) = some actual

  abbrev pub calculate_full_hash : Option Actual → Json → ℕ
  calculate_full_hash none target_state = hash target_state
  calculate_full_hash (some actual) target_state = actual.full_hash

  abbrev pub new_target_row : Json → ℕ → ℕ → Target
  new_target_row value full_hash updated_at = record {
    value = value;
    hash = hash value;
    full_hash = full_hash;
    tracked_at = updated_at;
  }

  -- A new target or, of the old one, the first difference that is found.
  unfoldable pub new_target : Json → ℕ → ℕ → Option Target → Target
  new_target value full_hash updated_at none = new_target_row value full_hash updated_at
  new_target value full_hash updated_at (some target) =
      if not (target.hash == hash value)
      then new_target_row value full_hash updated_at
      else (if not (target.full_hash == full_hash)
          then record target { full_hash = full_hash }
          else (if not (target.tracked_at == updated_at)
              then record target { tracked_at = updated_at }
              else target))

  -- What `actualize` sets, before the row is stored.
  abbrev pub with_state : Option Actual → Json → State → State
  with_state actual value state =
      let full_hash = calculate_full_hash actual value in
      record state {
        actual = actual;
        full_hash = full_hash;
        target = some (new_target value full_hash state.updated_at state.target);
      }

  -- A row that got its first target is stored twice.
  abbrev pub store_resource : Option Target → State → State → State
  store_resource none old state =
      let stored = update_resource old state in update_resource stored stored
  store_resource (some target) old state = update_resource old state

  -- Only a `KeyError` of the rendering is caught.
  unfoldable pub actualize :
      Outcome EngineError Json → Option Actual → State → Outcome EngineError State
  unfolding new_target
  actualize (ok value) found state = ok (
      store_resource state.target state
        (with_state (find_actual_resource found state.actual) value state))
  actualize (raised key_error) found state = ok state
  actualize (raised failure) found state = raised failure

  abbrev pub target_is_current : Json → State → Option Target → Bool
  target_is_current value state none = false
  target_is_current value state (some target) =
      target.hash == hash value
      && target.full_hash == state.full_hash
      && target.tracked_at == state.updated_at

  new_target_settles :
      (value : Json) (full before updated : ℕ) (target : Option Target)
      → let first = new_target value full before target in
        let second = new_target value full updated (some first) in
        (new_target value full updated (some second) ≡ second)
        × (second.hash ≡ hash value)
        × (second.full_hash ≡ full)
        × (second.tracked_at ≡ updated)
  unfolding new_target
  new_target_settles value full before updated none = ground arith
  new_target_settles value full before updated (some target) = ground arith

  find_again :
      (found known : Option Actual)
      → find_actual_resource found (find_actual_resource found known)
        ≡ find_actual_resource found known
  find_again none none = refl
  find_again (some a) none = refl
  find_again found (some b) = refl

  -- Storing a row changes its `updated_at` alone.
  store_resource_time :
      (target : Option Target) (old state : State)
      → (time : ℕ) × (store_resource target old state ≡ record state { updated_at = time })
  store_resource_time none old state = (_, refl)
  store_resource_time (some target) old state = (_, refl)

  -- The row once its actual resource, its full hash and a target are there.
  abbrev row : Option Actual → Json → Target → ℕ → State
  row actual value target time = record {
    actual = actual;
    target = some target;
    full_hash = calculate_full_hash actual value;
    updated_at = time;
  }

  module _
      (keeps : (old new : State) → SameRow old new → update_time old new ≡ old.updated_at) where
    actualize_known :
        (value : Json) (found actual : Option Actual) (target : Target) (time : ℕ)
        → find_actual_resource found actual ≡ actual
        → actualize (ok value) found (row actual value target time)
          ≡ ok (
              row actual value
                (new_target value (calculate_full_hash actual value) time (some target))
                time)
    unfolding actualize
    actualize_known value found actual target time same =
        let after =
          row actual value (new_target value (calculate_full_hash actual value) time (some target))
            time in
        rw (same, keeps (row actual value target time) after (refl, refl, refl)) refl

    -- While the rendering and the row of the actual resource stay, and the storage leaves the
    -- `updated_at` of a row whose own columns did not change, two calls of `actualize` make the
    -- target's hash, full hash and time current, and a third call changes nothing.
    pub actualize_settles :
        (value : Json) (found : Option Actual) (state : State)
        → (settled : State) × ((actualize (ok value) found state >>= actualize (ok value) found)
            ≡ ok settled)
          × (actualize (ok value) found settled ≡ ok settled)
          × (target_is_current value settled settled.target ≡ true)
    actualize_settles value found state =
        let actual = find_actual_resource found state.actual in
        let full = calculate_full_hash actual value in
        let first = new_target value full state.updated_at state.target in
        let (time, stored) =
          store_resource_time state.target state (with_state actual value state) in
        let second = new_target value full time (some first) in
        let (stays, hashed, full_hashed, tracked) =
          new_target_settles value full state.updated_at time state.target in
        let again = find_again found state.actual in
        let one : actualize (ok value) found state ≡ ok (row actual value first time) =
          unfold actualize in ap ok stored in
        let two = actualize_known value found actual first time again in
        let three = actualize_known value found actual second time again in
        (
          row actual value second time,
          rw one two,
          three ∙ ap (λ t. ok (row actual value t time)) stays,
          ground (arith, hashed, full_hashed, tracked),
        )
