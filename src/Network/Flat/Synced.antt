-- ===== src/Network/Flat/Synced.antt =====
-- The context that the driver loads and the configuration on disk, through calls that succeed and fail.
use genesis_core.Common.{
  ◌≡◌, ◌≢◌, ◌⊎◌, refl, ap, sym, ◌∙◌, List, [], ◌∷◌, any, arith, inl, inr, Bool-cases,
}
use genesis_core.Common.Dict.{nat_key}
use genesis_core.Common.Outcome.{Outcome, ok, raised, Outcome-cases, ◌>>=◌}
use genesis_core.Common.Text.{Text, text_beq, text_beq_iff}
use genesis_core.Network.Flat.{
  Context, ContextFile, Files, Host, missing, broken, saved, add_port, add_ports, add_subnet, apply,
  apply_cfg, active_port, create_port, create_ports, create_subnet, delete_from, delete_port,
  delete_ports, delete_subnet, get_empty_ctx, is_port, is_subnet, load_ctx, made, ports_at,
  remove_from, remove_ports, subnet_map, update_port, update_subnet,
}
use genesis_core.Network.Flat.Config.{FlatError, dhcp_config}
use genesis_core.Network.Flat.Calls.{
  Operation, creates_subnet, updates_subnet, deletes_subnet, creates_port, updates_port,
  deletes_port, creates_ports, deletes_ports, run, run_all, Remembered, run-Remembered,
}

module _ (host : Host) where
  -- A context was saved empty, or with the hash of its own configuration.
  abbrev IsOwn : Context → Type 0
  IsOwn ctx =
      (ctx.cfg_hash ≡ [])
      ⊎ ((t : Text) × (dhcp_config host.shows (subnet_map ctx.subnets ctx.port_map) ≡ ok t)
          × (ctx.cfg_hash ≡ host.hash t))

  abbrev Sound : Files → Type 0
  Sound files = (ctx : Context) → files.ctx ≡ saved ctx → IsOwn ctx

  made-Sound : (files : Files) (sound : Sound files) → Sound (made host files)
  made-Sound files sound = go files.ctx sound
    where
      go :
          (file : ContextFile) (sound : (ctx : Context) → file ≡ saved ctx → IsOwn ctx)
          → Sound (made host (record files { ctx = file }))
      go missing sound ctx e = inl (ground arith)
      go broken sound ctx e = inl (ground arith)
      go (saved c) sound ctx e = sound ctx e

  apply_cfg-Sound :
      (ctx : Context) (files : Files) (sound : Sound files) → Sound (apply_cfg host ctx files).1
  unfolding apply_cfg
  apply_cfg-Sound ctx files sound c e =
      elim (Outcome-cases (dhcp_config host.shows (subnet_map ctx.subnets ctx.port_map))) [
        | inl (failure, failed) ↦ sound c (ground arith)
        | inr (config, built) ↦ elim (Bool-cases (host.restarts config)) [
          | inr stopped ↦ sound c (ground arith)
          | inl restarted ↦ inr (config, ground arith, ground arith)
        ]
      ]

  apply-Sound :
      (changed : Outcome FlatError Context) (files : Files) (sound : Sound files)
      → Sound (apply host changed files).1
  apply-Sound (raised failure) files sound = sound
  apply-Sound (ok ctx) files sound = apply_cfg-Sound ctx files sound

  run-Sound :
      (operation : Operation) (files : Files) (sound : Sound files)
      → Sound (run host operation files).1
  run-Sound (creates_subnet subnet) files sound =
      unfold create_subnet in
      apply-Sound (add_subnet subnet (load_ctx host files)) (made host files)
        (made-Sound files sound)
  run-Sound (updates_subnet subnet) files sound =
      unfold update_subnet in
      apply-Sound (delete_from subnet (load_ctx host files) >>= add_subnet subnet) (made host files)
        (made-Sound files sound)
  run-Sound (creates_port port) files sound =
      unfold create_port in
      apply-Sound (add_port (active_port port) (load_ctx host files)) (made host files)
        (made-Sound files sound)
  run-Sound (updates_port port) files sound =
      unfold update_port in
      apply-Sound (add_port (active_port port) (remove_from port (load_ctx host files)))
        (made host files) (made-Sound files sound)
  run-Sound (creates_ports ports) files sound =
      unfold create_ports in
      apply-Sound (add_ports host ports (load_ctx host files)) (made host files)
        (made-Sound files sound)
  run-Sound (deletes_ports ports) files sound =
      unfold delete_ports in
      apply_cfg-Sound (remove_ports host ports (load_ctx host files)) (made host files)
        (made-Sound files sound)
  run-Sound (deletes_subnet subnet) files sound =
      let kept = made-Sound files sound in
      let changed = apply-Sound (delete_from subnet (load_ctx host files)) (made host files) kept in
      unfold delete_subnet in
      λ c e. elim (Bool-cases (any (is_subnet subnet.uuid) (load_ctx host files).subnets)) [
        | inl found ↦ changed c (ground arith)
        | inr other ↦ kept c (ground arith)
      ]
  run-Sound (deletes_port port) files sound =
      let kept = made-Sound files sound in
      let changed =
        apply_cfg-Sound (remove_from port (load_ctx host files)) (made host files) kept in
      unfold delete_port in
      λ c e.
        elim (Bool-cases
          (any (is_port port.uuid) (ports_at port.subnet (load_ctx host files).port_map))) [
            | inl found ↦ changed c (ground arith)
            | inr other ↦ kept c (ground arith)
          ]

  run_all-Sound :
      (operations : List Operation) (files : Files) (sound : Sound files)
      → Sound (run_all host operations files)
  unfolding run_all
  run_all-Sound [] files sound = sound
  run_all-Sound (operation ∷ operations) files sound =
      run_all-Sound operations (run host operation files).1 (run-Sound operation files sound)

  -- The driver takes its context for empty, or the configuration on disk has the hash of the one that
  -- its context gives.
  abbrev pub IsSynced : Files → Type 0
  IsSynced files =
      (load_ctx host files ≡ get_empty_ctx)
      ⊎ ((t : Text) × (dhcp_config host.shows
              (subnet_map (load_ctx host files).subnets (load_ctx host files).port_map)
            ≡ ok t)
          × (host.hash t ≡ host.hash files.cfg))

  Sound-IsSynced :
      (filled : (t : Text) → host.hash t ≢ []) (files : Files) (sound : Sound files)
      → IsSynced files
  Sound-IsSynced filled files sound = go files.ctx sound
    where
      go :
          (file : ContextFile) (sound : (ctx : Context) → file ≡ saved ctx → IsOwn ctx)
          → IsSynced (record files { ctx = file })
      go missing sound = inl (unfold load_ctx in refl)
      go broken sound = inl (unfold load_ctx in refl)
      go (saved c) sound = elim (Bool-cases (text_beq (host.hash files.cfg) c.cfg_hash)) [
        | inr differs ↦ inl (unfold load_ctx in ground arith)
        | inl same ↦
            let equal = (text_beq_iff (host.hash files.cfg) c.cfg_hash).0 same in
            elim (sound c refl) [
              | inl empty ↦ inl (let absurd = filled files.cfg (equal ∙ empty) in ground arith)
              | inr (t, built, own) ↦ inr (unfold load_ctx in (t, ground arith, sym (equal ∙ own)))
            ]
      ]

  -- From a missing, a broken or an empty context, and with one hash, which is never the empty text,
  -- throughout: after any calls and one more, each of which may fail while the configuration is built
  -- or at the restart of the service, the driver takes its context for empty or the configuration on
  -- disk has the hash of the one that its context gives; and the last call failed, or the context that
  -- the next call reads is the one that it applied.
  pub run_all-IsSynced :
      (filled : (t : Text) → host.hash t ≢ []) (operations : List Operation) (operation : Operation)
      (files : Files) (fresh : (ctx : Context) → files.ctx ≡ saved ctx → ctx ≡ get_empty_ctx)
      → IsSynced (run host operation (run_all host operations files)).1
        × Remembered host (run host operation (run_all host operations files))
  run_all-IsSynced filled operations operation files fresh =
      let before = run_all host operations files in
      let sound =
        run_all-Sound operations files
          (λ ctx e. inl (ap (λ (c : Context). c.cfg_hash) (fresh ctx e))) in
      (
        Sound-IsSynced filled (run host operation before).1 (run-Sound operation before sound),
        run-Remembered host operation before,
      )
