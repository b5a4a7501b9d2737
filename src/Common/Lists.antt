-- ===== src/Common/Lists.antt =====
-- Lists measured by native numbers, and Boolean searches through them.
use Prim.Native.Nat.{ℕ, suc, ◌+◌}
use mathlib.Core.Path.{◌≡◌}
use mathlib.Core.Logic.{◌⊎◌, inl, inr}
use mathlib.Core.Bool.{Bool, true, false, ◌&&◌, ◌||◌}
use mathlib.Core.List.{List, [], ◌∷◌, ◌++◌}
use native.Mathlib.Omega.{arith}
use genesis_core.Common.Tests.{if◌then◌else◌, Bool-cases}

module _ {ℓ} {A : Type ℓ} where
  abbrev pub length : List A → ℕ
  length [] = 0
  length (x ∷ xs) = suc (length xs)

  -- The comprehension `[x for x in xs if test(x)]`.
  abbrev pub select : (A → Bool) → List A → List A
  select test [] = []
  select test (x ∷ xs) = if test x then x ∷ select test xs else select test xs

  -- `any(test(x) for x in xs)` and `all(...)`.
  abbrev pub any : (A → Bool) → List A → Bool
  any test [] = false
  any test (x ∷ xs) = test x || any test xs

  abbrev pub all : (A → Bool) → List A → Bool
  all test [] = true
  all test (x ∷ xs) = test x && all test xs

  abbrev pub All {κ} : (A → Type κ) → List A → Type κ
  All P [] = Unit
  All P (x ∷ xs) = P x × All P xs

  pub length-append : (xs ys : List A) → length (xs ++ ys) ≡ length xs + length ys
  length-append [] ys = omega arith
  length-append (x ∷ xs) ys = omega (arith, length-append xs ys)

module _ {A : Type 0} where
  abbrev pub Member : A → List A → Type 0
  Member a [] = ⊥
  Member a (x ∷ xs) = (x ≡ a) ⊎ Member a xs

  pub Member-select :
      (test : A → Bool) (a : A) (xs : List A)
      → Member a (select test xs)
      → Member a xs × (test a ≡ true)
  Member-select test a [] m = absurd m
  Member-select test a (x ∷ xs) m = elim (Bool-cases (test x)) [
    | inr fails ↦ let (old, passes) = Member-select test a xs (rw fails at m) in (inr old, passes)
    | inl holds ↦
        let m' : (x ≡ a) ⊎ Member a (select test xs) = rw holds at m in
        elim m' [
          | inl same ↦ (inl same, rw same at holds)
          | inr later ↦ let (old, passes) = Member-select test a xs later in (inr old, passes)
        ]
  ]

  -- A list whose head is one of two values is part of the list of both.
  pub Member-if :
      (b : Bool) (x y a : A) (xs : List A)
      → Member a ((if b then y else x) ∷ xs)
      → Member a (x ∷ y ∷ xs)
  Member-if true x y a xs m = inr m
  Member-if false x y a xs (inl e) = inl e
  Member-if false x y a xs (inr m) = inr (inr m)
