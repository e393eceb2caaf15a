-- ===== src/Service.antt =====
-- apps/service/src: what the service keeps, its routes, and its live push.
pub mod Rows
pub mod Changes
pub mod Devices
pub mod Invites
pub mod Replicas
pub mod Legal
pub mod Limiter
pub mod Users
pub mod UserCodes
pub mod Http
pub mod Gateway
