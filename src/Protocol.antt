-- ===== src/Protocol.antt =====
-- backend/pkg/protocol: the frames that carry the envelopes between two nodes.
pub mod Framing
