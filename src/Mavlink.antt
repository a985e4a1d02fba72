-- ===== src/Mavlink.antt =====
-- backend/pkg/mavlink: the MAVLink bridge, its wire format, its vehicles and their missions.
pub mod Crc
pub mod Dialect
pub mod Frame
pub mod Vehicles
pub mod MissionState
pub mod MissionResult
pub mod CommandResult
pub mod Vector
pub mod Mover
pub mod Bridge
