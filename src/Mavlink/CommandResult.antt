-- ===== src/Mavlink/CommandResult.antt =====
-- backend/pkg/mavlink/dialect.go: the MAV_RESULT values that the bridge answers with.
use swarm_communication.Prelude.{ℕ}

abbrev pub accepted : ℕ
accepted = 0

abbrev pub temporarily_rejected : ℕ
temporarily_rejected = 1

abbrev pub denied : ℕ
denied = 2

abbrev pub unsupported : ℕ
unsupported = 3
