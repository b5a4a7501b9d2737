-- ===== src/Common/Outcome.antt =====
-- What a call that may raise returns.
use mathlib.Core.Path.{◌≡◌, refl}
use mathlib.Core.Logic.{◌⊎◌, inl, inr}
use mathlib.Core.Bool.{Bool, true, false}

pub data Outcome (Failure Value : Type 0) : Type 0 where
  raised : Failure → Outcome Failure Value
  ok : Value → Outcome Failure Value

infixl 10 ◌>>=◌
abbrev pub ◌>>=◌ :
    {Failure Value Next : Type 0}
    → Outcome Failure Value
    → (Value → Outcome Failure Next)
    → Outcome Failure Next
raised failure >>= next = raised failure
ok value >>= next = next value

-- A chain that ends well: its first call did, and the rest from there.
pub ok_chain :
    {Failure Value Next : Type 0} (first : Outcome Failure Value)
    (next : Value → Outcome Failure Next) {b : Next} (h : (first >>= next) ≡ ok b)
    → (value : Value) × (first ≡ ok value) × (next value ≡ ok b)
ok_chain (raised failure) next h = cc
ok_chain (ok value) next h = (value, refl, h)

-- A call raised or returned.
pub Outcome-cases :
    {Failure Value : Type 0} (o : Outcome Failure Value)
    → ((failure : Failure) × (o ≡ raised failure)) ⊎ ((value : Value) × (o ≡ ok value))
Outcome-cases (raised failure) = inl (failure, refl)
Outcome-cases (ok value) = inr (value, refl)

abbrev pub is_ok : {Failure Value : Type 0} → Outcome Failure Value → Bool
is_ok (ok value) = true
is_ok (raised failure) = false
