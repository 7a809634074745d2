-- ===== src/Tests.antt =====
-- The theorems at concrete inputs: the data of the tests and what comes of it.
pub mod Timers
pub mod Network
pub mod Datagrams
pub mod Exchange
pub mod Controls
pub mod Accepts
pub mod Sessions
pub mod Rates
pub mod Results
pub mod Sends
pub mod Options
pub mod Readers
pub mod Quic
pub mod Stats
pub mod Auth
pub mod Sockets
pub mod Cleanups
