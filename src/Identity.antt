-- ===== src/Identity.antt =====
-- The workload identity of the internal transport (internal/transport/identity): the material loaded
-- from the mounted files, its reloader, the tracker of the connections that each root verified, and
-- the authorization of a method.
pub mod Material
pub mod Reloader
pub mod Tracker
pub mod Rotation
pub mod Spiffe
pub mod Authz
pub mod Policy
mod Examples
