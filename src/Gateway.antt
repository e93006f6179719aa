-- ===== src/Gateway.antt =====
-- pkg/gateway: the external processor that Envoy calls for each request and response.
pub mod Messages
pub mod Keys
pub mod Auth
pub mod Admission
pub mod Stages
pub mod Admitted
pub mod Limits
pub mod Request
pub mod Response
pub mod Process
pub mod Shutdown
pub mod Http
pub mod Wiring
pub mod Room
pub mod Kept
pub mod Counted
pub mod Refused
pub mod Spent
pub mod Streamed
pub mod Tokens
pub mod Concurrent
pub mod Tests
pub mod RedisTests
