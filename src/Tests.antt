-- ===== src/Tests.antt =====
-- Concrete runs of the models, and each theorem applied at one.
mod Table
mod Election
mod Affinity
mod Mavlink
mod Protocol
mod Node
mod Vehicles
mod Bridge
mod Mission
