-- ===== src/Network/Flat/Calls.antt =====
-- Sequences of calls of the flat driver of exordos_core/network/driver/flat.py, and what a call leaves
-- for the next one.
use genesis_core.Common.{
  ◌≡◌, ◌⊎◌, refl, ap, List, [], ◌∷◌, any, arith, inl, inr, Bool, true, false, if◌then◌else◌,
}
use genesis_core.Common.Dict.{nat_key}
use genesis_core.Common.Outcome.{Outcome, ok, raised, Outcome-cases, ◌>>=◌}
use genesis_core.Network.Flat.{
  Context, ContextFile, Files, Host, Run, missing, broken, saved, add_port, add_ports, add_subnet,
  apply, apply_cfg, active_port, create_port, create_ports, create_subnet, delete_from, delete_port,
  delete_ports, delete_subnet, is_port, is_subnet, load_ctx, made, ports_at, remove_from,
  remove_ports, update_port, update_subnet,
}
use genesis_core.Network.Flat.Config.{Subnet, Port, FlatError}
use genesis_core.Network.Flat.Listed.{load_ctx-apply_cfg}

pub data Operation : Type 0 where
  creates_subnet updates_subnet deletes_subnet : Subnet → Operation
  creates_port updates_port deletes_port : Port → Operation
  creates_ports deletes_ports : List Port → Operation

module _ (host : Host) where
  abbrev pub run : Operation → Files → Run Context
  run (creates_subnet subnet) = create_subnet host subnet
  run (updates_subnet subnet) = update_subnet host subnet
  run (deletes_subnet subnet) = delete_subnet host subnet
  run (creates_port port) = create_port host port
  run (updates_port port) = update_port host port
  run (deletes_port port) = delete_port host port
  run (creates_ports ports) = create_ports host ports
  run (deletes_ports ports) = delete_ports host ports

  -- The files after calls of which each may have failed.
  unfoldable pub run_all : List Operation → Files → Files
  run_all [] files = files
  run_all (operation ∷ operations) files = run_all operations (run operation files).1

  -- The call failed, or the next call reads the context that it applied.
  abbrev pub Remembered : Run Context → Type 0
  Remembered done =
      ((failure : FlatError) × (done.0 ≡ raised failure))
      ⊎ ((ctx : Context) × (done.0 ≡ ok ctx) × (load_ctx host done.1 ≡ ctx))

  apply_cfg-Remembered : (ctx : Context) (files : Files) → Remembered (apply_cfg host ctx files)
  apply_cfg-Remembered ctx files = elim (Outcome-cases (apply_cfg host ctx files).0) [
    | inl (failure, failed) ↦ inl (failure, failed)
    | inr (done, applied) ↦ inr (
      done,
      applied,
      (load_ctx-apply_cfg host ctx done files (apply_cfg host ctx files).1
          (ap (λ o. (o, (apply_cfg host ctx files).1)) applied)).0,
    )
  ]

  apply-Remembered :
      (changed : Outcome FlatError Context) (files : Files) → Remembered (apply host changed files)
  apply-Remembered (raised failure) files = inl (failure, refl)
  apply-Remembered (ok ctx) files = apply_cfg-Remembered ctx files

  load_ctx-made : (files : Files) → load_ctx host (made host files) ≡ load_ctx host files
  load_ctx-made files = go files.ctx
    where
      go :
          (file : ContextFile)
          → load_ctx host (made host (record files { ctx = file }))
            ≡ load_ctx host (record files { ctx = file })
      go missing = unfold load_ctx in ground arith
      go broken = refl
      go (saved c) = refl

  unchanged-Remembered : (files : Files) → Remembered (ok (load_ctx host files), made host files)
  unchanged-Remembered files = inr (load_ctx host files, refl, load_ctx-made files)

  Remembered-if :
      (b : Bool) (x y : Run Context) → Remembered x → Remembered y → Remembered (if b then x else y)
  Remembered-if true x y h k = h
  Remembered-if false x y h k = k

  pub run-Remembered : (operation : Operation) (files : Files) → Remembered (run operation files)
  run-Remembered (creates_subnet subnet) files =
      unfold create_subnet in
      apply-Remembered (add_subnet subnet (load_ctx host files)) (made host files)
  run-Remembered (updates_subnet subnet) files =
      unfold update_subnet in
      apply-Remembered (delete_from subnet (load_ctx host files) >>= add_subnet subnet)
        (made host files)
  run-Remembered (creates_port port) files =
      unfold create_port in
      apply-Remembered (add_port (active_port port) (load_ctx host files)) (made host files)
  run-Remembered (updates_port port) files =
      unfold update_port in
      apply-Remembered (add_port (active_port port) (remove_from port (load_ctx host files)))
        (made host files)
  run-Remembered (creates_ports ports) files =
      unfold create_ports in
      apply-Remembered (add_ports host ports (load_ctx host files)) (made host files)
  run-Remembered (deletes_ports ports) files =
      unfold delete_ports in
      apply_cfg-Remembered (remove_ports host ports (load_ctx host files)) (made host files)
  run-Remembered (deletes_subnet subnet) files =
      let changed = apply host (delete_from subnet (load_ctx host files)) (made host files) in
      unfold delete_subnet in
      Remembered-if (any (is_subnet subnet.uuid) (load_ctx host files).subnets) changed
        (ok (load_ctx host files), made host files)
        (apply-Remembered (delete_from subnet (load_ctx host files)) (made host files))
        (unchanged-Remembered files)
  run-Remembered (deletes_port port) files =
      let changed = apply_cfg host (remove_from port (load_ctx host files)) (made host files) in
      unfold delete_port in
      Remembered-if (any (is_port port.uuid) (ports_at port.subnet (load_ctx host files).port_map))
        changed (ok (load_ctx host files), made host files)
        (apply_cfg-Remembered (remove_from port (load_ctx host files)) (made host files))
        (unchanged-Remembered files)
