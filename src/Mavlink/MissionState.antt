-- ===== src/Mavlink/MissionState.antt =====
-- backend/pkg/mavlink/mission.go: the MISSION_STATE values.
use swarm_communication.Prelude.{ℕ}

abbrev pub no_mission : ℕ
no_mission = 1

abbrev pub not_started : ℕ
not_started = 2

abbrev pub active : ℕ
active = 3

abbrev pub complete : ℕ
complete = 5
