-- ===== src/Mavlink/Bridge/Loop/Sound.antt =====
-- The invariant of the missions and the transfers, over every run of the loop.
use swarm_communication.Prelude.{ℕ, List, [], ◌∷◌, arith}
use swarm_communication.Mavlink.Bridge.{Sender, Bridge, BridgeConfig}
use swarm_communication.Mavlink.Bridge.Transfer.{on_mission_item, e7}
use swarm_communication.Mavlink.Bridge.Nodes.{tick_status, tick_positions}
use swarm_communication.Mavlink.Bridge.Inbound.{Inbound, on_message}
use swarm_communication.Mavlink.Bridge.Flights.{flights}
use swarm_communication.Mavlink.Bridge.Sound.{IsSoundBridge}
use swarm_communication.Mavlink.Bridge.Loop.{Event, handle, run_loop, new_bridge}
use swarm_communication.Mavlink.Bridge.Loop.Stored.{item-IsSound}
use swarm_communication.Mavlink.Bridge.Loop.Protocol.{
  list-IsSound, request-IsSound, count-IsSound, clear_all-IsSound, set_current-IsSound,
  expire_uploads-IsSound,
}
use swarm_communication.Mavlink.Bridge.Loop.Elsewhere.{Elsewhere, Elsewhere-IsSound}
use swarm_communication.Mavlink.Bridge.Loop.Flown.{run_missions-IsSound}
use swarm_communication.Mavlink.Bridge.Loop.Commanded.{command-IsSound}
use swarm_communication.Mavlink.Bridge.Loop.Observed.{
  apply_nodes-IsSound, tick_status-Elsewhere, tick_positions-Elsewhere, on_event-Elsewhere,
  param_list-Elsewhere, param_read-Elsewhere,
}

moved : (b b' : Bridge) → Elsewhere b b' → IsSoundBridge b → IsSoundBridge b'
moved b b' e s = Elsewhere-IsSound {b = b} {b' = b'} e s

on_message-IsSound :
    (cfg : BridgeConfig) (now : ℕ) (from : Sender) (m : Inbound) (b : Bridge)
    → IsSoundBridge b
    → IsSoundBridge (on_message cfg now from m b)
unfolding on_message on_mission_item
on_message-IsSound cfg now from (Inbound.param_request_list t) b s =
    moved b _ (param_list-Elsewhere cfg t b) s
on_message-IsSound cfg now from (Inbound.param_request_read t i name) b s =
    moved b _ (param_read-Elsewhere cfg t i name b) s
on_message-IsSound cfg now from (Inbound.command_long m) b s = command-IsSound cfg from m b s
on_message-IsSound cfg now from (Inbound.mission_request_list t c typ) b s =
    list-IsSound from t c typ b s
on_message-IsSound cfg now from (Inbound.mission_request_int t c seq typ) b s =
    request-IsSound from t c seq typ b s
on_message-IsSound cfg now from (Inbound.mission_request t c seq typ) b s =
    request-IsSound from t c seq typ b s
on_message-IsSound cfg now from (Inbound.mission_count t c count typ) b s =
    count-IsSound now from t c count typ b s
on_message-IsSound cfg now from (Inbound.mission_item_int m) b s = item-IsSound cfg now from m b s
on_message-IsSound cfg now from (Inbound.mission_item lat lon m) b s =
    item-IsSound cfg now from (record m { x = e7 cfg.world.fm lat; y = e7 cfg.world.fm lon }) b s
on_message-IsSound cfg now from (Inbound.mission_clear_all t c typ) b s =
    clear_all-IsSound from t c typ b s
on_message-IsSound cfg now from (Inbound.mission_set_current t c seq) b s =
    set_current-IsSound from t c seq b s
on_message-IsSound cfg now from Inbound.mission_ack b s = s
on_message-IsSound cfg now from Inbound.other b s = s

handle-IsSound :
    (cfg : BridgeConfig) (e : Event) (b : Bridge) → IsSoundBridge b → IsSoundBridge (handle cfg e b)
unfolding handle
handle-IsSound cfg (Event.heard now from m) b s = on_message-IsSound cfg now from m b s
handle-IsSound cfg (Event.swarm is_down node) b s = moved b _ (on_event-Elsewhere is_down node b) s
handle-IsSound cfg (Event.synced nodes) b s = apply_nodes-IsSound cfg nodes b s
handle-IsSound cfg (Event.status_tick now) b s =
    expire_uploads-IsSound cfg now (tick_status b.order b)
      (moved b (tick_status b.order b) (tick_status-Elsewhere b.order b) s)
handle-IsSound cfg (Event.position_tick dt) b s =
    run_missions-IsSound cfg (tick_positions cfg dt b.order b)
      (moved b (tick_positions cfg dt b.order b) (tick_positions-Elsewhere cfg dt b.order b) s)

run_loop-IsSound :
    (cfg : BridgeConfig) (events : List Event) (b : Bridge)
    → IsSoundBridge b
    → IsSoundBridge (run_loop cfg events b)
unfolding run_loop
run_loop-IsSound cfg [] b s = s
run_loop-IsSound cfg (e ∷ events) b s =
    run_loop-IsSound cfg events (handle cfg e b) (handle-IsSound cfg e b s)

new_bridge-IsSound : IsSoundBridge new_bridge
unfolding flights
new_bridge-IsSound = record { planned = tt; staged = tt; one_flight = λ n. omega arith }

-- From the start of the bridge, after any events: every stored mission has 1 to 500 items, numbered from
-- 0; every transfer in flight has the items before the one that it waits for, numbered from 0 and flown
-- by nobody, and waits for one of at most 500 announced items; and no node flies two items, over all
-- missions together.
pub run_loop-new_bridge :
    (cfg : BridgeConfig) (events : List Event) → IsSoundBridge (run_loop cfg events new_bridge)
run_loop-new_bridge cfg events = run_loop-IsSound cfg events new_bridge new_bridge-IsSound
