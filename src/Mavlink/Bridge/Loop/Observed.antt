-- ===== src/Mavlink/Bridge/Loop/Observed.antt =====
-- The snapshots, the ticks and the parameters keep the invariant.
use Prim.Native.String.{String}
use swarm_communication.Prelude.{
  ℕ, suc, refl, sym, Bool, false, List, [], ◌∷◌, arith, Bool-cases, Option-cases, inl, inr, subst,
  ◌==◌, get_elem?, if◌then◌else◌,
}
use swarm_communication.Prelude.Int.{ℤ}
use swarm_communication.Prelude.Map.{lookup, insert, keys}
use swarm_communication.Cluster.Member.{NodeId}
use swarm_communication.Mavlink.Vehicles.{sys_id}
use swarm_communication.Mavlink.Bridge.{
  Vehicle, Bridge, BridgeConfig, send, statusf, vehicle_by_sys_id,
}
use swarm_communication.Mavlink.Bridge.Nodes.{
  NodeState, reorder, add_vehicle, apply_node, apply_each, unseen, forget, prune_node, prune_each,
  prune, apply_nodes, report_all, tick_status, tick_positions, on_event, status_burst,
  position_burst,
}
use swarm_communication.Mavlink.Mover.{step}
use swarm_communication.Mavlink.Bridge.Inbound.{
  Param, bridge_params, param_value, send_params, send_every, on_param_request_list,
  requested_index, on_param_request_read,
}
use swarm_communication.Mavlink.Bridge.Sound.{IsSoundBridge}
use swarm_communication.Mavlink.Bridge.Loop.Elsewhere.{
  Elsewhere, Elsewhere-IsSound, Elsewhere-trans,
}
use swarm_communication.Mavlink.Bridge.Loop.Commanded.{release_items-IsSound}

here : (b : Bridge) → Elsewhere b b
here b = record { same_missions = refl; same_uploads = refl }

-- Snapshots.
apply_node-Elsewhere :
    (cfg : BridgeConfig) (n : NodeState) (b : Bridge) → Elsewhere b (apply_node cfg n b)
unfolding apply_node add_vehicle reorder
apply_node-Elsewhere cfg n b = elim (Bool-cases (n.id == 0)) [
  | inl e ↦ rw e (here b)
  | inr e ↦ rw e (elim (Option-cases (lookup n.id b.vs)) [
    | inr (v, f) ↦ rw (f, apply_node) (record { same_missions = refl; same_uploads = refl })
    | inl f ↦
        rw (f, apply_node)
          (elim (Option-cases (sys_id cfg.name n.id b.vehicles).0) [
            | inl g ↦ rw g (record { same_missions = refl; same_uploads = refl })
            | inr (i, g) ↦ rw g (record { same_missions = refl; same_uploads = refl })
          ])
  ])
]

apply_each-Elsewhere :
    (cfg : BridgeConfig) (nodes : List NodeState) (b : Bridge)
    → Elsewhere b (apply_each cfg nodes b)
unfolding apply_each
apply_each-Elsewhere cfg [] b = here b
apply_each-Elsewhere cfg (n ∷ nodes) b =
    Elsewhere-trans (apply_node-Elsewhere cfg n b)
      (apply_each-Elsewhere cfg nodes (apply_node cfg n b))

prune_node-IsSound :
    (id : NodeId) (p : Bool) (b : Bridge) → IsSoundBridge b → IsSoundBridge (prune_node id (p, b)).1
unfolding prune_node forget
prune_node-IsSound id p b s = elim (Option-cases (lookup id b.vs)) [
  | inl e ↦ rw (e, prune_node) s
  | inr (v, e) ↦
      rw (e, prune_node)
        (elim (Bool-cases v.seen) [ inl f ↦ rw f s | inr f ↦ rw f (release_items-IsSound id b s) ])
]

prune_each-IsSound :
    (ids : List NodeId) (p : Bool) (b : Bridge)
    → IsSoundBridge b
    → IsSoundBridge (prune_each ids (p, b)).1
unfolding prune_each
prune_each-IsSound [] p b s = s
prune_each-IsSound (id ∷ ids) p b s =
    let next = prune_node id (p, b) in
    prune_each-IsSound ids next.0 next.1 (prune_node-IsSound id p b s)

prune-IsSound : (b : Bridge) → IsSoundBridge b → IsSoundBridge (prune b)
unfolding prune reorder
prune-IsSound b s =
    let pruned = prune_each (keys b.vs) (false, b) in
    let kept = prune_each-IsSound (keys b.vs) false b s in
    elim (Bool-cases pruned.0) [ inl e ↦ rw e kept | inr e ↦ rw e kept ]

pub apply_nodes-IsSound :
    (cfg : BridgeConfig) (nodes : List NodeState) (b : Bridge)
    → IsSoundBridge b
    → IsSoundBridge (apply_nodes cfg nodes b).1
unfolding apply_nodes
apply_nodes-IsSound cfg nodes b s =
    let b' : Bridge = record b { vs = unseen b.vs } in
    prune-IsSound (apply_each cfg nodes b') (
      Elsewhere-IsSound {b = b'} {b' = apply_each cfg nodes b'} (apply_each-Elsewhere cfg nodes b')
        s)

-- Ticks.
report_all-Elsewhere : (id : ℕ) (ms : List ℕ) (b : Bridge) → Elsewhere b (report_all id ms b)
unfolding report_all send
report_all-Elsewhere id [] b = here b
report_all-Elsewhere id (m ∷ ms) b =
    let e = report_all-Elsewhere id ms _ in
    record { same_missions = e.same_missions; same_uploads = e.same_uploads }

pub tick_status-Elsewhere : (ids : List NodeId) (b : Bridge) → Elsewhere b (tick_status ids b)
unfolding tick_status
tick_status-Elsewhere [] b = here b
tick_status-Elsewhere (id ∷ ids) b = elim (Option-cases (lookup id b.vs)) [
  | inl e ↦ rw (e, tick_status) (tick_status-Elsewhere ids b)
  | inr (v, e) ↦
      rw (e, tick_status)
        (elim (Bool-cases v.connected) [
          | inr f ↦ rw f (tick_status-Elsewhere ids b)
          | inl f ↦ rw f (
              Elsewhere-trans (report_all-Elsewhere v.sys_id status_burst b)
                (tick_status-Elsewhere ids (report_all v.sys_id status_burst b)))
        ])
]

pub tick_positions-Elsewhere :
    (cfg : BridgeConfig) (dt : ℤ) (ids : List NodeId) (b : Bridge)
    → Elsewhere b (tick_positions cfg dt ids b)
unfolding tick_positions
tick_positions-Elsewhere cfg dt [] b = here b
tick_positions-Elsewhere cfg dt (id ∷ ids) b = elim (Option-cases (lookup id b.vs)) [
  | inl e ↦ rw (e, tick_positions) (tick_positions-Elsewhere cfg dt ids b)
  | inr (v, e) ↦
      rw (e, tick_positions)
        (elim (Bool-cases v.connected) [
          | inr f ↦ rw f (tick_positions-Elsewhere cfg dt ids b)
          | inl f ↦
              let b' : Bridge = record b {
                vs = insert id (record v { mover = step cfg.world dt v.mover }) b.vs;
              } in
              let sent = report_all v.sys_id position_burst b' in
              let e' = report_all-Elsewhere v.sys_id position_burst b' in
              let first : Elsewhere b sent = record {
                same_missions = e'.same_missions;
                same_uploads = e'.same_uploads;
              } in
              subst (λ c. Elsewhere b (tick_positions cfg dt ids (if c then sent else b))) (sym f)
                (Elsewhere-trans first (tick_positions-Elsewhere cfg dt ids sent))
        ])
]

pub on_event-Elsewhere :
    (is_down : Bool) (node : NodeId) (b : Bridge) → Elsewhere b (on_event is_down node b)
unfolding on_event statusf send
on_event-Elsewhere is_down node b = record {
  same_missions = ground arith;
  same_uploads = ground arith;
}

-- Parameters.
send_params-Elsewhere :
    (cfg : BridgeConfig) (v : Vehicle) (i : ℕ) (ps : List Param) (b : Bridge)
    → Elsewhere b (send_params cfg v i ps b)
unfolding send_params send
send_params-Elsewhere cfg v i [] b = here b
send_params-Elsewhere cfg v i (p ∷ ps) b =
    let e = send_params-Elsewhere cfg v (suc i) ps (send v.sys_id (param_value cfg v i p) b) in
    record { same_missions = e.same_missions; same_uploads = e.same_uploads }

send_every-Elsewhere :
    (cfg : BridgeConfig) (ids : List NodeId) (b : Bridge) → Elsewhere b (send_every cfg ids b)
unfolding send_every
send_every-Elsewhere cfg [] b = here b
send_every-Elsewhere cfg (id ∷ ids) b = elim (Option-cases (lookup id b.vs)) [
  | inl e ↦ rw (e, send_every) (send_every-Elsewhere cfg ids b)
  | inr (v, e) ↦
      rw (e, send_every)
        (Elsewhere-trans (send_params-Elsewhere cfg v 0 bridge_params b)
          (send_every-Elsewhere cfg ids (send_params cfg v 0 bridge_params b)))
]

pub param_list-Elsewhere :
    (cfg : BridgeConfig) (target : ℕ) (b : Bridge)
    → Elsewhere b (on_param_request_list cfg target b)
unfolding on_param_request_list
param_list-Elsewhere cfg target b = elim (Bool-cases (target == 0)) [
  | inl e ↦ rw e (send_every-Elsewhere cfg b.order b)
  | inr e ↦ rw e (elim (Option-cases (vehicle_by_sys_id target b)) [
    | inl f ↦ rw (f, on_param_request_list) (here b)
    | inr (r, f) ↦ rw (f, on_param_request_list) (send_params-Elsewhere cfg r.1 0 bridge_params b)
  ])
]

pub param_read-Elsewhere :
    (cfg : BridgeConfig) (target : ℕ) (index : ℤ) (name : String) (b : Bridge)
    → Elsewhere b (on_param_request_read cfg target index name b)
unfolding on_param_request_read send
param_read-Elsewhere cfg target index name b = elim (Option-cases (vehicle_by_sys_id target b)) [
  | inl e ↦ rw (e, on_param_request_read) (here b)
  | inr (r, e) ↦
      rw (e, on_param_request_read)
        (elim (Option-cases (requested_index index name)) [
          | inl f ↦ rw (f, on_param_request_read) (here b)
          | inr (i, f) ↦
              rw (f, on_param_request_read)
                (elim (Option-cases (get_elem? bridge_params i)) [
                  | inl g ↦ rw (g, on_param_request_read) (here b)
                  | inr (p, g) ↦
                      rw (g, on_param_request_read)
                        (record { same_missions = refl; same_uploads = refl })
                ])
        ])
]
