-- ===== src/Mavlink/Bridge/Inbound/Answered.antt =====
-- Requests, uploads, clear-all and set-current of the mission protocol do not stay without an answer.
use swarm_communication.Mavlink.Bridge.{Bridge}
use swarm_communication.Mavlink.Bridge.Inbound.{Inbound}
