-- ===== src/Protocol.antt =====
-- runtime_macro_protocol.c: the management protocol, one request frame to one response frame.
pub mod Bytes
pub mod Frame
pub mod State
pub mod Macros
pub mod Volatile
pub mod Login
pub mod Dispatch
pub mod Shape
pub mod Access
pub mod Gate
pub mod Session
pub mod Serve
pub mod Set
pub mod Upload
pub mod Download
pub mod RoundTrip
pub mod Invariant
