-- ===== src/Mavlink/MissionResult.antt =====
-- backend/pkg/mavlink/dialect.go: the MAV_MISSION_RESULT values that the bridge answers with.
use swarm_communication.Prelude.{ℕ}

abbrev pub accepted : ℕ
accepted = 0

abbrev pub error : ℕ
error = 1

abbrev pub unsupported_frame : ℕ
unsupported_frame = 2

abbrev pub unsupported : ℕ
unsupported = 3

abbrev pub no_space : ℕ
no_space = 4

abbrev pub invalid : ℕ
invalid = 5

abbrev pub invalid_sequence : ℕ
invalid_sequence = 13

abbrev pub operation_cancelled : ℕ
operation_cancelled = 15
