-- ===== src/Lib.antt =====
-- ip2socks takes the TCP connections that reach its own IP stack (lwIP on a TUN or TAP device) and
-- relays each of them through a SOCKS5 server. This library models the parts of it that carry the
-- program's own logic, and proves what they promise.
--
-- src/tcp_raw.cpp is the relay. lwIP calls `tcp_raw_accept` for a new connection, which connects to the
-- SOCKS5 server by src/socks5.cpp and registers callbacks with lwIP (`tcp_raw_recv`, `tcp_raw_sent`,
-- `tcp_raw_poll`, `tcp_raw_error`) and watchers with libev (`read_cb`, `timeout_cb`, `block_cb`). These
-- share the memory `struct tcp_raw_state`. src/udp_raw.cpp answers or passes on datagrams: it finds the
-- domain of a DNS query by src/dns/dns_parser.c, matches it against the rules by src/util.cpp, and
-- drops the query, sends it to a DNS server, or relays it through the SOCKS5 server. src/main.cpp reads
-- the configuration, loads the rule files, sets up the device (src/netif), the two relays, the signals
-- and a script, and enters the loop of libev, in which packets are read from the device.
--
-- Common: shared names, Boolean tests and lists on the native numbers, byte strings.
-- Numbers: `atoi` and `sprintf("%d")`, the C library's two functions that pass ports as texts.
-- System, System/Growing: sockets and lwIP as an environment `Env` that answers each call with the trace of calls so
--   far in view, and the commands that record the calls. A statement for every `Env` is one for every
--   behaviour of the peer, the kernel and the stack. A command whose result is `none` is undefined
--   behaviour: memory freed or out of bounds.
-- Util, Util/Split, Util/Substrings: `split` and `end_with` of src/util.cpp, `std::string::find`.
-- Rules, Rules/FirstMatch, Rules/Outcomes: `match_dns_rule` of src/util.cpp.
-- Socks5, Socks5/Request, Socks5/Auth: `socks5_sockset`, `socks5_connect` and `socks5_auth` of
--   src/socks5.cpp.
-- Config, Config/Loading, Config/Fields, Config/Defaults, Config/RuleFiles: `struct Conf` of
--   src/struct.h, and `parse_config` of src/main.cpp on the tokens of libyaml.
-- Dns: src/dns/dns_parser.c, with the parser of the resolver library as a parameter.
-- Tcp/State: `struct tcp_raw_state` of src/tcp_raw.h, the watchers and callbacks, and the laws of libev
--   that the relay relies on. Tcp/Close, Tcp/Upstream, Tcp/Downstream, Tcp/Accept: the functions of
--   src/tcp_raw.cpp. Tcp/Events: which callbacks can be made, and runs of them. Tcp/Flows: the bytes
--   in and out, read off a trace. Tcp/Closing, Tcp/Invariant, Tcp/Sending, Tcp/UpstreamKeeps,
--   Tcp/Writing, Tcp/Relaying, Tcp/DownstreamKeeps, Tcp/Safety, Tcp/Timeout, Tcp/Shaking, Tcp/Accepting,
--   Tcp/Relay, Tcp/Growing, Tcp/Pipes, Tcp/Refining and Tcp/Owning with their child modules, Tcp/Ending with its child modules, Tcp/Stalling, Tcp/Draining, Tcp/Draining/Rounds: proofs.
-- Tcp/Server with its child modules: all connections, accepted and called in any order.
-- Udp, Udp/Wire, Udp/Query: the callbacks and `udp_raw_recv` of src/udp_raw.cpp, one exchange at a
--   time. Udp/Events: which callbacks libev makes on it. Udp/Formats, Udp/Blocking,
--   Udp/Forwarding, Udp/Replies, Udp/Lifetime, Udp/Answering, Udp/Associating,
--   Udp/Connecting, Udp/Passing, Udp/Asking, Udp/Handling with its child modules: proofs.
-- Device, Device/Counts: what the two devices share, packets between a device and the stack, and the
--   two platforms. The set-up is in Setup for Linux and in Utun for macOS, each with its own
--   `O_NONBLOCK`; `main` is modelled on Linux, `parse_config` on both.
-- Tun, Tun/Packets, Tap, Tap/Frames: the packet paths of src/netif/tunif.c and src/netif/tapif.c.
-- Utun, Utun/Opening, Utun/Opening/Loop, Utun/Packets, Utun/Naming, Utun/Ending: the parts of
--   src/netif/tunif.c that are compiled on macOS, where the device is a control socket of the kernel,
--   the record `Control`.
-- Setup, Setup/Texts, Setup/Outcomes, Setup/Tun, Setup/Tap: `tunif_init` and `tapif_init` down to the calls of the
--   kernel, with `setnonblocking` of src/netif/socket_util.c. The kernel is a record `Kernel` that
--   answers each call with the calls so far in view.
-- Start, Start/Shell, Start/Running: `main` of src/main.cpp from its options to the event loop, with
--   the signal handlers, the scripts, `tuntap_read_cb`, `tcp_raw_init` and `udp_raw_init`. The process
--   goes on or has exited, which is a `Fate`.
-- Examples: tests, and the theorems at concrete inputs.
--
-- Bounds and fuel: `split_loop` runs on fuel, for which the length of the text and two is enough, since
-- each round moves past a delimiter; `write_loop` on fuel for its length, which at least halves in each
-- further round; `u16_t` and `size_t` wrap around as written. A text is assumed shorter than `npos`,
-- and the payload of a `pbuf` chain shorter than 2 ^ 16 bytes, the range of its `tot_len`.
--
-- Not modelled: what is printed; priorities, keep-alive and other options of a pcb; the
-- non-blocking mode of a socket; memory that the UDP relay allocates and never frees; the flags of
-- the interface and its IPv6 address. `malloc` is taken to succeed: where it does not, `memset` writes
-- through NULL before the test that would give `ERR_MEM`. `pbuf_alloc` may fail. libev, lwIP, libyaml
-- and the resolver are libraries that the program calls. An exchange of
-- datagrams is modelled alone, since exchanges share no memory. A pcb given to `tcp_close`
-- twice, or after lwIP freed it, is recorded as given, and what lwIP then does is left open; the
-- two strings of a new connection are taken as empty, although `malloc` runs no constructor.
pub mod Common
pub mod Numbers
pub mod System
pub mod Socks5
pub mod Tcp
pub mod Util
pub mod Rules
pub mod Config
pub mod Dns
pub mod Udp
pub mod Device
pub mod Tun
pub mod Utun
pub mod Tap
pub mod Setup
pub mod Start
mod Examples
