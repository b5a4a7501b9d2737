-- ===== src/Elements/Reconcile/Laws.antt =====
-- What the loop of Reconcile leaves in the table, by the name of the row.
use genesis_core.Common.{
  ◌≡◌, true, none, some, Option, [], ◌∷◌, arith, inl, inr, Option-cases, Bool-cases, subst, sym,
  if◌then◌else◌,
}
use genesis_core.Common.Dict
use genesis_core.Common.Dict.{KeyType, Dict, get-put, get-remove, same_refl}
use genesis_core.Common.Dict.Updates.{distinct, is_present}
use genesis_core.Common.Outcome.{Outcome, ok, raised, ◌>>=◌, ok_chain}
use genesis_core.Elements.Reconcile.{Work, Table, settle, apply, drop, reconcile, start, drop_left}

module _ {K Entry Resolved Row Engine Failure : Type 0} ⦃e : KeyType K⦄
    (table : Table K Entry Resolved Row Engine Failure) where
  -- The row that stands for an entry: the old one updated, or a new one.
  abbrev pub settled_row : K → Resolved → Option Row → Row
  settled_row k v none = table.made k v
  settled_row k v (some old) = table.updated k v old

  abbrev pub row_of : K → Option Row → Outcome Failure Resolved → Option Row
  row_of k old (raised failure) = none
  row_of k old (ok v) = some (settled_row k v old)

  -- What a new row changes in the engine is nothing that an entry is resolved by.
  abbrev pub Stable : Type 0
  Stable =
      (row : Row) (engine engine' : Engine) (added : table.added row engine ≡ ok engine') (k : K)
      (entry : Entry)
      → table.resolve k entry engine' ≡ table.resolve k entry engine

  abbrev inserted : K → Resolved → Work K Row Engine → Engine → Outcome Failure (Work K Row Engine)
  inserted k v work engine =
      ok (record work { rows = Dict.put k (table.made k v) work.rows; engine = engine })

  abbrev replaced : K → Resolved → Row → Work K Row Engine → Outcome Failure (Work K Row Engine)
  replaced k v old work = ok (record work {
    rows = Dict.put k (table.updated k v old) work.rows;
    left = Dict.remove k work.left;
  })

  settle_lem :
      (stable : Stable) (j k : K) (v : Resolved) (i : K) (entry : Entry)
      (work next : Work K Row Engine) (h : settle table k v work ≡ ok next)
      → (Dict.get j next.rows ≡ (
          if e.same k j
          then some (settled_row k v (Dict.get k work.left))
          else Dict.get j work.rows))
        × (Dict.get j next.left ≡ (if e.same k j then none else Dict.get j work.left))
        × (table.resolve i entry next.engine ≡ table.resolve i entry work.engine)
  settle_lem stable j k v i entry work next h = elim (Option-cases (Dict.get k work.left)) [
    | inl absent ↦
        let (engine, added, h') =
          ok_chain (table.added (table.made k v) work.engine) (inserted k v work) {b = next}
            (unfold settle in ground arith) in
        ground (
          arith,
          e.same_iff k j,
          get-put k j (table.made k v) work.rows,
          stable (table.made k v) work.engine engine added i entry,
        )
    | inr (old, found) ↦
        let h' : replaced k v old work ≡ ok next = unfold settle in ground arith in
        ground (arith, get-put k j (table.updated k v old) work.rows, get-remove k j work.left)
  ]

  abbrev expected : K → Dict K Entry → Work K Row Engine → Option Row
  expected j entries work = elim (Dict.get j entries) [
    | none ↦ Dict.get j work.rows
    | some entry ↦ row_of j (Dict.get j work.left) (table.resolve j entry work.engine)
  ]

  apply_lem :
      (stable : Stable) (j : K) (entries : Dict K Entry) (work done : Work K Row Engine)
      (once : distinct entries ≡ true) (h : apply table entries work ≡ ok done)
      → (Dict.get j done.rows ≡ expected j entries work)
        × (Dict.get j done.left
            ≡ (if is_present (Dict.get j entries) then none else Dict.get j work.left))
        × (is_present (Dict.get j entries) ≡ true → is_present (Dict.get j done.rows) ≡ true)
  unfolding apply Dict.get
  apply_lem stable j [] work done once h = ground arith
  apply_lem stable j ((k, entry) ∷ rest) work done once h =
      let (v, resolved, h') =
        ok_chain (table.resolve k entry work.engine)
          (λ v. settle table k v work >>= apply table rest) {b = done} h in
      let (next, settled, h'') = ok_chain (settle table k v work) (apply table rest) h' in
      let ih = apply_lem stable j rest next done (ground arith) h'' in
      let step = λ (i : K) (other : Entry). settle_lem stable j k v i other work next settled in
      elim (Option-cases (Dict.get j rest)) [
        | inl absent ↦ let here = step k entry in ground (arith, e.same_iff k j)
        | inr (other, found) ↦ let there = step j other in ground (arith, e.same_iff k j)
      ]

  abbrev removed : K → Dict K Row → Work K Row Engine → Engine → Outcome Failure (Work K Row Engine)
  removed k rest work engine =
      drop table rest (record work { rows = Dict.remove k work.rows; engine = engine })

  drop_lem :
      (j : K) (left : Dict K Row) (work done : Work K Row Engine)
      (h : drop table left work ≡ ok done)
      → Dict.get j done.rows ≡ (if is_present (Dict.get j left) then none else Dict.get j work.rows)
  unfolding drop Dict.get
  drop_lem j [] work done h = ground arith
  drop_lem j ((k, row) ∷ rest) work done h =
      let (engine, deleted, h') =
        ok_chain (table.deleted row work.engine) (removed k rest work) {b = done} h in
      let ih =
        drop_lem j rest (record work { rows = Dict.remove k work.rows; engine = engine }) done h' in
      ground (arith, e.same_iff k j, get-remove k j work.rows)

  -- What a row is after the loops, by its name: what the manifest's entry makes of it, and nothing
  -- when the manifest does not name it.
  abbrev pub wanted_row : K → Dict K Entry → Dict K Row → Engine → Option Row
  wanted_row j entries rows engine = elim (Dict.get j entries) [
    | none ↦ none
    | some entry ↦ row_of j (Dict.get j rows) (table.resolve j entry engine)
  ]

  pub reconcile_lem :
      (stable : Stable) (j : K) (entries : Dict K Entry) (rows : Dict K Row) (engine : Engine)
      (done : Work K Row Engine) (once : distinct entries ≡ true)
      (h : reconcile table entries rows engine ≡ ok done)
      → (Dict.get j done.rows ≡ wanted_row j entries rows engine)
        × (is_present (Dict.get j done.rows) ≡ is_present (Dict.get j entries))
  reconcile_lem stable j entries rows engine done once h =
      let (next, applied, h') =
        ok_chain (apply table entries (start table rows engine)) (drop_left table) {b = done}
          (unfold reconcile in h) in
      let looped = apply_lem stable j entries (start table rows engine) next once applied in
      let dropped = drop_lem j next.left next done h' in
      elim (Option-cases (Dict.get j entries)) [
        | inl absent ↦ ground arith
        | inr (entry, found) ↦ ground arith
      ]

  settle_new :
      (k : K) (v : Resolved) (work next : Work K Row Engine) (absent : Dict.get k work.left ≡ none)
      (h : settle table k v work ≡ ok next)
      → (engine : Engine) × (table.added (table.made k v) work.engine ≡ ok engine)
        × (next.engine ≡ engine)
        × (next.left ≡ work.left)
  settle_new k v work next absent h =
      let (engine, added, h') =
        ok_chain (table.added (table.made k v) work.engine) (inserted k v work) {b = next}
          (unfold settle in ground arith) in
      (engine, added, ground arith, ground arith)

  settle_old :
      (k : K) (v : Resolved) (old : Row) (work next : Work K Row Engine)
      (found : Dict.get k work.left ≡ some old) (h : settle table k v work ≡ ok next)
      → (next.engine ≡ work.engine) × (next.left ≡ Dict.remove k work.left)
  settle_old k v old work next found h =
      let h' : replaced k v old work ≡ ok next = unfold settle in ground arith in
      (ground arith, ground arith)

  -- What every new row keeps of the engine.
  abbrev pub Kept : (Engine → Type 0) → Type 0
  Kept P =
      (row : Row) (engine engine' : Engine) (added : table.added row engine ≡ ok engine')
      (p : P engine)
      → P engine'

  settle-Kept :
      (P : Engine → Type 0) (kept : Kept P) (j k : K) (v : Resolved) (work next : Work K Row Engine)
      (h : settle table k v work ≡ ok next) (absent : Dict.get j work.left ≡ none)
      (p : P work.engine)
      → (Dict.get j next.left ≡ none) × P next.engine
  settle-Kept P kept j k v work next h absent p = elim (Option-cases (Dict.get k work.left)) [
    | inl new ↦
        let (engine, added, same, left) = settle_new k v work next new h in
        (ground arith, subst P (sym same) (kept (table.made k v) work.engine engine added p))
    | inr (old, found) ↦
        let (same, left) = settle_old k v old work next found h in
        (ground (arith, get-remove k j work.left), subst P (sym same) p)
  ]

  -- The call of the engine for an entry without a row, in an engine that has what is kept.
  abbrev pub Added : (Engine → Type 0) → K → Entry → Type 0
  Added P k entry =
      (v : Resolved) × (before after : Engine) × (table.resolve k entry before ≡ ok v)
      × (table.added (table.made k v) before ≡ ok after)
      × P before

  pub apply-Added :
      (P : Engine → Type 0) (kept : Kept P) (k : K) (entry : Entry) (entries : Dict K Entry)
      (work done : Work K Row Engine) (named : Dict.get k entries ≡ some entry)
      (new : Dict.get k work.left ≡ none) (p : P work.engine)
      (h : apply table entries work ≡ ok done)
      → Added P k entry
  unfolding apply Dict.get
  apply-Added P kept k entry [] work done named new p h = cc
  apply-Added P kept k entry ((j, first) ∷ rest) work done named new p h =
      let (v, resolved, h') =
        ok_chain (table.resolve j first work.engine)
          (λ v. settle table j v work >>= apply table rest) {b = done} h in
      let (next, settled, h'') = ok_chain (settle table j v work) (apply table rest) h' in
      let (new', p') = settle-Kept P kept k j v work next settled new p in
      elim (Bool-cases (e.same j k)) [
        | inl same ↦
            let equal : j ≡ k = (e.same_iff j k).0 same in
            let (engine, added, _, _) = settle_new j v work next (ground arith) settled in
            (v, work.engine, engine, ground arith, ground arith, p)
        | inr other ↦ apply-Added P kept k entry rest next done (ground arith) new' p' h''
      ]
