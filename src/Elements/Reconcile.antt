-- ===== src/Elements/Reconcile.antt =====
-- The loop that `apply_imports`, `apply_exports` and `apply_resources` of `Manifest` in
-- exordos_core/elements/dm/models.py each write out: a row of the element that the manifest names
-- is updated, a missing one is inserted and given to the engine, and the rows that the manifest does
-- not name are taken from the engine and deleted. The loop's parts are parameters.
pub mod Laws
use genesis_core.Common.{none, some, [], ◌∷◌, Option}
use genesis_core.Common.Dict
use genesis_core.Common.Dict.{KeyType, Dict}
use genesis_core.Common.Outcome.{Outcome, ok, ◌>>=◌}

-- The rows of the element in the table, `existing_...` of the method, and the engine.
pub record Work (K Row Engine : Type 0) : Type 0 where
  pub rows : Dict K Row
  pub left : Dict K Row
  pub engine : Engine

-- An entry of the manifest, with what the engine resolves it to; how a row is made from it and how
-- an old one is updated; and the calls of the engine for a new row and for a deleted one.
pub record Table (K Entry Resolved Row Engine Failure : Type 0) : Type 0 where
  pub resolve : K → Entry → Engine → Outcome Failure Resolved
  pub made : K → Resolved → Row
  pub updated : K → Resolved → Row → Row
  pub added : Row → Engine → Outcome Failure Engine
  pub deleted : Row → Engine → Outcome Failure Engine

module _ {K Entry Resolved Row Engine Failure : Type 0} ⦃e : KeyType K⦄
    (table : Table K Entry Resolved Row Engine Failure) where
  -- `if model := existing.pop(name, None): ... else: ...`
  unfoldable pub settle : K → Resolved → Work K Row Engine → Outcome Failure (Work K Row Engine)
  settle k v work = elim (Dict.get k work.left) [
    | some old ↦ ok (record work {
      rows = Dict.put k (table.updated k v old) work.rows;
      left = Dict.remove k work.left;
    })
    | none ↦ table.added (table.made k v) work.engine >>= λ engine.
        ok (record work { rows = Dict.put k (table.made k v) work.rows; engine = engine })
  ]

  -- The loop over the entries of the manifest.
  unfoldable pub apply : Dict K Entry → Work K Row Engine → Outcome Failure (Work K Row Engine)
  unfolding settle
  apply [] work = ok work
  apply ((k, entry) ∷ rest) work =
      table.resolve k entry work.engine >>= λ v. settle k v work >>= apply rest

  -- The loop over `existing.values()`.
  unfoldable pub drop : Dict K Row → Work K Row Engine → Outcome Failure (Work K Row Engine)
  drop [] work = ok work
  drop ((k, row) ∷ rest) work = table.deleted row work.engine >>= λ engine.
      drop rest (record work { rows = Dict.remove k work.rows; engine = engine })

  abbrev pub start : Dict K Row → Engine → Work K Row Engine
  start rows engine = record { rows = rows; left = rows; engine = engine }

  abbrev pub drop_left : Work K Row Engine → Outcome Failure (Work K Row Engine)
  drop_left work = drop work.left work

  unfoldable pub reconcile :
      Dict K Entry → Dict K Row → Engine → Outcome Failure (Work K Row Engine)
  unfolding apply drop
  reconcile entries rows engine = apply entries (start rows engine) >>= drop_left
