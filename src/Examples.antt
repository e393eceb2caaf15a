-- ===== src/Examples.antt =====
-- Small inputs: the definitions run on them, and the theorems apply to them.
mod Files
mod Rows
mod Requests
mod Push
mod Streams
mod Gap
mod Clients
mod Frozen
mod Configs
