-- ===== src/Elements/Json.antt =====
-- The values of a manifest's resources, of exordos_core/elements: what `json` reads, a `dict` by its
-- keys in order. Numbers other than natural ones are not used by the code.
use genesis_core.Common.{ℕ, Bool}
use genesis_core.Common.Text.{Text}

mutual
  pub data Json : Type 0 where
    null : Json
    truth : Bool → Json
    number : ℕ → Json
    text : Text → Json
    list : Items → Json
    object : Fields → Json

  pub data Items : Type 0 where
    last : Items
    item : Json → Items → Items

  pub data Fields : Type 0 where
    closed : Fields
    field : Text → Json → Fields → Fields
