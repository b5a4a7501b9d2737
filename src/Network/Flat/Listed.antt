-- ===== src/Network/Flat/Listed.antt =====
-- What the driver lists after its calls.
use genesis_core.Common.{
  ℕ, ◌==◌, ◌≡◌, refl, ap, ◌∙◌, Bool, true, false, List, [], ◌∷◌, ◌++◌, any, map, select, arith,
  if◌then◌else◌, inl, inr, Bool-cases,
}
use genesis_core.Common.Dict
use genesis_core.Common.Dict.{Dict, nat_key, get-put}
use genesis_core.Common.Outcome.{ok, Outcome-cases}
use genesis_core.Common.Text.{text_beq_refl}
use genesis_core.Network.Flat.{
  Context, Files, Host, active_port, add_port, add_ports, apply_cfg, create_port, create_ports,
  delete_port, is_port, list_ports, load_ctx, made, ports_at, remove_from, remove_port, subnet_map,
}
use genesis_core.Network.Flat.Config.{Port, dhcp_config}

append_nil : {A : Type 0} (xs : List A) → xs ++ [] ≡ xs
append_nil [] = refl
append_nil (x ∷ xs) = ap (λ ys. x ∷ ys) (append_nil xs)

append_assoc : {A : Type 0} (xs ys zs : List A) → (xs ++ ys) ++ zs ≡ xs ++ (ys ++ zs)
append_assoc [] ys zs = refl
append_assoc (x ∷ xs) ys zs = ap (λ us. x ∷ us) (append_assoc xs ys zs)

abbrev pub in_subnet : ℕ → Port → Bool
in_subnet u port = port.subnet == u

-- The ports of a subnet among those that are given, as they are created.
abbrev pub new_ports : ℕ → List Port → List Port
new_ports u ports = select (in_subnet u) (map active_port ports)

ports_at-put :
    (k u : ℕ) (ports : List Port) (port_map : Dict ℕ (List Port))
    → ports_at u (Dict.put k ports port_map) ≡ (if k == u then ports else ports_at u port_map)
ports_at-put k u ports port_map =
    let same = get-put k u ports port_map in
    elim (Bool-cases (k == u)) [ inl at ↦ ground arith | inr away ↦ ground arith ]

add_port_ports :
    (u : ℕ) (port : Port) (ctx ctx' : Context) (h : add_port port ctx ≡ ok ctx')
    → ports_at u ctx'.port_map ≡ ports_at u ctx.port_map ++ select (in_subnet u) (port ∷ [])
unfolding add_port
add_port_ports u port ctx ctx' h =
    let ports = ports_at port.subnet ctx.port_map in
    let changed = ports_at-put port.subnet u (ports ++ port ∷ []) ctx.port_map in
    elim (Bool-cases (any (is_port port.uuid) ports)) [
      | inl taken ↦ ground arith
      | inr new ↦ elim (Bool-cases (port.subnet == u)) [
        | inl at ↦ ground arith
        | inr away ↦ let same = append_nil (ports_at u ctx.port_map) in ground arith
      ]
    ]

module _ (host : Host) where
  pub load_ctx-apply_cfg :
      (ctx ctx' : Context) (files files' : Files) (h : apply_cfg host ctx files ≡ (ok ctx', files'))
      → (load_ctx host files' ≡ ctx') × (ctx'.port_map ≡ ctx.port_map)
  unfolding load_ctx apply_cfg
  load_ctx-apply_cfg ctx ctx' files files' h =
      elim (Outcome-cases (dhcp_config host.shows (subnet_map ctx.subnets ctx.port_map))) [
        | inl (failure, failed) ↦ ground arith
        | inr (config, built) ↦
            let same = text_beq_refl (host.hash config) in
            elim (Bool-cases (host.restarts config)) [
              | inr stopped ↦ ground arith
              | inl restarted ↦ (ground arith, ground arith)
            ]
      ]

  add_ports_ports :
      (u : ℕ) (ports : List Port) (ctx ctx' : Context) (h : add_ports host ports ctx ≡ ok ctx')
      → ports_at u ctx'.port_map ≡ ports_at u ctx.port_map ++ new_ports u ports
  add_ports_ports u [] ctx ctx' h = let same = append_nil (ports_at u ctx.port_map) in ground arith
  add_ports_ports u (port ∷ ports) ctx ctx' h =
      elim (Outcome-cases (add_port (active_port port) ctx)) [
        | inl (failure, failed) ↦ ground arith
        | inr (c, added) ↦
            let ih = add_ports_ports u ports c ctx' (ground arith) in
            let first = add_port_ports u (active_port port) ctx c added in
            let shift =
              append_assoc (ports_at u ctx.port_map) (select (in_subnet u) (active_port port ∷ []))
                (new_ports u ports) in
            ground arith
      ]

  -- Ports that are created, in any number, are listed behind the ports of their subnet in their order and
  -- as active; the other subnets list what they did.
  pub list_ports-create_ports :
      (u : ℕ) (ports : List Port) (ctx : Context) (files files' : Files)
      (h : create_ports host ports files ≡ (ok ctx, files'))
      → list_ports host u files' ≡ list_ports host u files ++ new_ports u ports
  unfolding create_ports list_ports
  list_ports-create_ports u ports ctx files files' h =
      elim (Outcome-cases (add_ports host ports (load_ctx host files))) [
        | inl (failure, failed) ↦ ground arith
        | inr (c, added) ↦
            let (loads, same) = load_ctx-apply_cfg c ctx (made host files) files' (ground arith) in
            let listed = add_ports_ports u ports (load_ctx host files) c added in ground arith
      ]

  remove_port_last :
      (port : Port) (ports : List Port) (new : any (is_port port.uuid) ports ≡ false)
      → remove_port port.uuid (ports ++ port ∷ []) ≡ ports
  remove_port_last port [] new = ground arith
  remove_port_last port (p ∷ ports) new =
      let ih = remove_port_last port ports (ground arith) in ground arith

  removed_again :
      (u : ℕ) (port : Port) (ctx ctx' : Context) (h : add_port port ctx ≡ ok ctx')
      → ports_at u (remove_from port ctx').port_map ≡ ports_at u ctx.port_map
  unfolding add_port remove_from
  removed_again u port ctx ctx' h =
      let ports = ports_at port.subnet ctx.port_map in
      elim (Bool-cases (any (is_port port.uuid) ports)) [
        | inl taken ↦ ground arith
        | inr new ↦
            let last = remove_port_last port ports new in
            let own = ports_at-put port.subnet port.subnet (ports ++ port ∷ []) ctx.port_map in
            let added = ports_at-put port.subnet u (ports ++ port ∷ []) ctx.port_map in
            let removed = ports_at-put port.subnet u ports ctx'.port_map in
            elim (Bool-cases (port.subnet == u)) [ inl at ↦ ground arith | inr away ↦ ground arith ]
      ]

  remove_from_map :
      (port : Port) (a b : Context) (same : a.port_map ≡ b.port_map)
      → (remove_from port a).port_map ≡ (remove_from (active_port port) b).port_map
  unfolding remove_from
  remove_from_map port a b same =
      ap
        (λ (m : Dict ℕ (List Port)).
          Dict.put port.subnet (remove_port port.uuid (ports_at port.subnet m)) m)
        same

  any_last : (port : Port) (ports : List Port) → any (is_port port.uuid) (ports ++ port ∷ []) ≡ true
  any_last port [] = ground arith
  any_last port (p ∷ ports) = let ih = any_last port ports in ground arith

  added_there :
      (port : Port) (ctx ctx' : Context) (h : add_port port ctx ≡ ok ctx')
      → any (is_port port.uuid) (ports_at port.subnet ctx'.port_map) ≡ true
  unfolding add_port
  added_there port ctx ctx' h =
      let ports = ports_at port.subnet ctx.port_map in
      let there = any_last port ports in
      let own = ports_at-put port.subnet port.subnet (ports ++ port ∷ []) ctx.port_map in
      elim (Bool-cases (any (is_port port.uuid) ports)) [
        | inl taken ↦ ground arith
        | inr new ↦ ground arith
      ]

  -- A port that is created and deleted again leaves every subnet with the ports it listed before.
  pub delete_port-create_port :
      (u : ℕ) (port : Port) (ctx ctx' : Context) (files files' files'' : Files)
      (created : create_port host port files ≡ (ok ctx, files'))
      (deleted : delete_port host port files' ≡ (ok ctx', files''))
      → list_ports host u files'' ≡ list_ports host u files
  unfolding create_port delete_port list_ports
  delete_port-create_port u port ctx ctx' files files' files'' created deleted =
      elim (Outcome-cases (add_port (active_port port) (load_ctx host files))) [
        | inl (failure, failed) ↦ ground arith
        | inr (c, added) ↦
            let (loads, same) = load_ctx-apply_cfg c ctx (made host files) files' (ground arith) in
            let there = added_there (active_port port) (load_ctx host files) c added in
            let again = removed_again u (active_port port) (load_ctx host files) c added in
            elim (Bool-cases
              (any (is_port port.uuid) (ports_at port.subnet (load_ctx host files').port_map))) [
                | inl there ↦
                    let alike =
                      remove_from_map port (load_ctx host files') c
                        (ap (λ (c : Context). c.port_map) loads ∙ same) in
                    let (loads', same') =
                      load_ctx-apply_cfg (remove_from port (load_ctx host files')) ctx'
                        (made host files') files'' (ground arith) in
                    ground arith
                | inr gone ↦ ground arith
              ]
      ]
