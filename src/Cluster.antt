-- ===== src/Cluster.antt =====
-- backend/pkg/cluster: the membership table, the election, the choice of a leader and the quorum.
pub mod Member
pub mod Table
pub mod Partition
pub mod Election
pub mod Affinity
pub mod Wire
pub mod Node
