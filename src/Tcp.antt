-- ===== src/Tcp.antt =====
-- src/tcp_raw.cpp and src/tcp_raw.h: a TCP connection of the lwIP stack relayed over a SOCKS5
-- socket.
pub mod State
pub mod Close
pub mod Upstream
pub mod Downstream
pub mod Accept
pub mod Events
pub mod Closing
pub mod Flows
pub mod Invariant
pub mod UpstreamKeeps
pub mod Writing
pub mod Relaying
pub mod Sending
pub mod DownstreamKeeps
pub mod Safety
pub mod Relay
pub mod Shaking
pub mod Accepting
pub mod Timeout
pub mod Ending
pub mod Growing
pub mod Pipes
pub mod Refining
pub mod Owning
pub mod Server
pub mod Stalling
pub mod Draining
