-- ===== src/LoadBalancer/Exclusive.antt =====
-- The ports of a load balancer through the operations on its virtual hosts.
use genesis_core.Common.{
  ◌==◌, ◌≡◌, refl, ◌&&◌, ◌||◌, not, Bool, true, false, List, [], ◌∷◌, arith, any, select,
}
use genesis_core.Common.Outcome.{Outcome, ok, ok_chain}
use genesis_core.Common.Text.{Text}
use genesis_core.LoadBalancer.{
  Protocol, http, https, udp, Vhost, Tables, VhostError, in_conflict, conflicts, valid_fields,
  validate, add, insert, replace, update, delete,
}

-- Two hosts can listen on one port when one is for datagrams and the other is not, or when both
-- tell their domains apart in the same way.
abbrev pub can_share : Protocol → Protocol → Bool
can_share udp udp = false
can_share udp _ = true
can_share _ udp = true
can_share http http = true
can_share https https = true
can_share _ _ = false

unfoldable pub apart : Vhost → Vhost → Bool
apart v w =
    v.uuid == w.uuid
    || not (v.parent == w.parent)
    || not (v.port == w.port)
    || can_share v.protocol w.protocol

abbrev pub all_apart : Vhost → List Vhost → Bool
all_apart v [] = true
all_apart v (w ∷ ws) = apart v w && all_apart v ws

-- No two hosts of a balancer listen on a port that they cannot share.
abbrev pub exclusive : List Vhost → Bool
exclusive [] = true
exclusive (v ∷ vs) = all_apart v vs && exclusive vs

in_conflict_lem : (p q : Protocol) → in_conflict p q ≡ not (can_share p q)
unfolding in_conflict
in_conflict_lem p q = ground arith

can_share_sym : (p q : Protocol) → can_share p q ≡ can_share q p
can_share_sym p q = ground arith

apart_sym : (v w : Vhost) → apart v w ≡ apart w v
unfolding apart
apart_sym v w = ground (arith, can_share_sym v.protocol w.protocol)

apart_self : (v : Vhost) → apart v v ≡ true
unfolding apart
apart_self v = ground arith

free_pair : (v w : Vhost) → conflicts v w ≡ false → apart v w ≡ true
unfolding apart
free_pair v w h = ground (arith, in_conflict_lem v.protocol w.protocol)

or_false : (a b : Bool) → (a || b) ≡ false → (a ≡ false) × (b ≡ false)
or_false a b h = (ground arith, ground arith)

free_apart :
    (v : Vhost) (vhosts : List Vhost) → any (conflicts v) vhosts ≡ false → all_apart v vhosts ≡ true
free_apart v [] h = refl
free_apart v (w ∷ vhosts) h =
    let (here, there) = or_false (conflicts v w) (any (conflicts v) vhosts) h in
    let pair = free_pair v w here in let rest = free_apart v vhosts there in rw (pair) (rest)

select-all_apart :
    (keep : Vhost → Bool) (v : Vhost) (vhosts : List Vhost)
    → all_apart v vhosts ≡ true
    → all_apart v (select keep vhosts) ≡ true
select-all_apart keep v [] h = refl
select-all_apart keep v (w ∷ vhosts) h = ground (arith, select-all_apart keep v vhosts)

select-exclusive :
    (keep : Vhost → Bool) (vhosts : List Vhost)
    → exclusive vhosts ≡ true
    → exclusive (select keep vhosts) ≡ true
select-exclusive keep [] h = refl
select-exclusive keep (v ∷ vhosts) h =
    ground (arith, select-all_apart keep v vhosts, select-exclusive keep vhosts)

replace-all_apart :
    (w v : Vhost) (vhosts : List Vhost) (new : apart w v ≡ true) (h : all_apart w vhosts ≡ true)
    → all_apart w (replace v vhosts) ≡ true
unfolding replace
replace-all_apart w v [] new h = refl
replace-all_apart w v (x ∷ vhosts) new h = ground (arith, replace-all_apart w v vhosts new)

replace-exclusive :
    (v : Vhost) (vhosts : List Vhost) (free : all_apart v vhosts ≡ true)
    (h : exclusive vhosts ≡ true)
    → exclusive (replace v vhosts) ≡ true
unfolding replace
replace-exclusive v [] free h = refl
replace-exclusive v (w ∷ vhosts) free h = ground (
  arith,
  apart_sym v w,
  apart_self v,
  replace-all_apart w v vhosts,
  replace-all_apart v v vhosts,
  replace-exclusive v vhosts,
)

module _ (valid_crt valid_key valid_ssh : Text → Bool) where
  -- The fields of every host are what `_validate` asks for.
  abbrev pub all_valid : List Vhost → Bool
  all_valid [] = true
  all_valid (v ∷ vs) = valid_fields valid_crt valid_key valid_ssh v.protocol v && all_valid vs

  abbrev pub is_valid : Tables → Bool
  is_valid tables = exclusive tables.vhosts && all_valid tables.vhosts

  replace-all_valid :
      (v : Vhost) (vhosts : List Vhost)
      (fields : valid_fields valid_crt valid_key valid_ssh v.protocol v ≡ true)
      (h : all_valid vhosts ≡ true)
      → all_valid (replace v vhosts) ≡ true
  unfolding replace
  replace-all_valid v [] fields h = refl
  replace-all_valid v (w ∷ vhosts) fields h = ground (arith, replace-all_valid v vhosts fields)

  select-all_valid :
      (keep : Vhost → Bool) (vhosts : List Vhost) (h : all_valid vhosts ≡ true)
      → all_valid (select keep vhosts) ≡ true
  select-all_valid keep [] h = refl
  select-all_valid keep (v ∷ vhosts) h = ground (arith, select-all_valid keep vhosts)

  validated :
      (v w : Vhost) (vhosts : List Vhost)
      (h : validate valid_crt valid_key valid_ssh v vhosts ≡ ok w)
      → (w ≡ v)
        × (valid_fields valid_crt valid_key valid_ssh v.protocol v ≡ true)
        × (all_apart v vhosts ≡ true)
  unfolding validate
  validated v w vhosts h = (ground arith, ground arith, free_apart v vhosts (ground arith))

  pub data Operation : Type 0 where
    inserts updates deletes : Vhost → Operation

  abbrev pub run : Operation → Tables → Outcome VhostError Tables
  run (inserts v) = insert valid_crt valid_key valid_ssh v
  run (updates v) = update valid_crt valid_key valid_ssh v
  run (deletes v) = delete v

  -- Every insert, update and deletion of a virtual host that returns keeps the hosts of a balancer
  -- from listening on a port that they cannot share, and the fields of each as its protocol asks.
  pub run-is_valid :
      (operation : Operation) (tables after : Tables) (h : run operation tables ≡ ok after)
      (valid : is_valid tables ≡ true)
      → is_valid after ≡ true
  run-is_valid (inserts v) tables after h valid =
      let (w, checked, h') =
        ok_chain (validate valid_crt valid_key valid_ssh v tables.vhosts) (add tables) {b = after}
          (unfold insert in h) in
      let (same, fields, free) = validated v w tables.vhosts checked in ground arith
  run-is_valid (updates v) tables after h valid =
      let (w, checked, h') =
        ok_chain (validate valid_crt valid_key valid_ssh v tables.vhosts)
          (λ w. ok (record tables { vhosts = replace w tables.vhosts })) {b = after}
          (unfold update in h) in
      let (same, fields, free) = validated v w tables.vhosts checked in
      ground
        (arith, replace-exclusive v tables.vhosts free, replace-all_valid v tables.vhosts fields)
  run-is_valid (deletes v) tables after h valid =
      let keep = λ (w : Vhost). not (w.uuid == v.uuid) in
      let apart_kept = select-exclusive keep tables.vhosts in
      let fields_kept = select-all_valid keep tables.vhosts in unfold delete in ground arith
