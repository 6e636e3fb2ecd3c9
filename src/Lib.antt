-- ===== src/Lib.antt =====
-- A verification development for smoltcp-socks, a userspace TCP/IP stack that forwards the TCP
-- connections of a TUN device to a SOCKS5 proxy.
--
-- The program: `Runtime::start` (src/runtime.rs) reads the configuration (src/config.rs,
-- src/main.rs), parses the proxy URL (src/proxy.rs), and starts the TUN pump and the netstack
-- actor (src/netstack/actor.rs). The pump hands packets to smoltcp through `Phy` (src/device.rs).
-- The actor owns smoltcp's sockets: it keeps a pool of four listeners, hands every connection that
-- one of them accepts to a relay, and serves the reads, writes and closes that the relay sends it
-- through a `VConn` (src/netstack/vconn.rs). The relay (src/relay.rs) dials the destination
-- through the SOCKS5 proxy (src/socks5.rs) and copies bytes both ways.
--
-- Which file models what:
--
-- - Common and its children: lists, options, results, decimal numbers and the methods of `str`
--   that the program calls.
-- - Net, Stream, Mpsc: `IpAddr` and `SocketAddr`; the byte stream of the handshake, which a
--   computation over it passes explicitly and can fail; and the bounded channel of tokio, as a
--   record of operations and its documented laws.
-- - Socks5: src/socks5.rs. Replies describes the answers that the client takes as a grant,
--   which are more than the RFCs allow, Complete and Sound relate `client_handshake` to them,
--   Request reads the messages back as a server does, Secrecy is about what is written,
--   Reference is the outcome of `client_handshake` as a function of the server's bytes, Prefix
--   is about a part of these bytes and the whole, and Connect about `connect`. A write that
--   fails can have sent any part of its message.
-- - Proxy: src/proxy.rs. Grammar describes the texts that are read and those that are refused,
--   RoundTrip prints URLs and parses them, Sound says what is made of an accepted one.
-- - Netstack: src/netstack/mod.rs, with `resolve_mtu` and `new_tcp_socket`. Vconn is
--   src/netstack/vconn.rs. Socket is the interface of smoltcp's TCP sockets and socket set. Conn
--   is `ConnState` and its `service`, Actor is `NetstackActor` with `try_accept` and
--   `service_commands` (Ownership and Service keep its invariant, Handoff says what becomes of a
--   new connection), Run is its `run`, and Spawn is `NetstackActor::spawn`: the actor, the
--   dispatcher and the handle as tasks in any order, with Safety and Stopping about their runs;
--   a turn of the actor is one step, although on another thread the dispatcher can take
--   connections between two of its sends, which makes room earlier. Interface is
--   `build_interface`. Conn, Actor, Run and Spawn are of src/netstack/actor.rs.
-- - Relay: src/relay.rs. Copy is about its loops alone, Downstream and Steady run the downward
--   loop, and Upstream the upward one, over the `service_io` of Netstack/Conn and the socket;
--   Session puts one relay, its calls of `VConn`, the command channel and the rounds of the
--   actor side by side, in any order (Steps): Flight to Orderly are about the requests, Streams
--   to Delivery about the bytes, Service about a whole `service` of the connection, Trace gives
--   the rounds that a run goes through, and Upward to Copies say that on these rounds the loops
--   are `copy_vconn_to` and `copy_to_vconn`. `pipe` as a function of the rounds says only what
--   it comes to: the join of both loops and the close behind it are steps of Session. Device:
--   src/device.rs, with Receive about its loop. Runtime: src/runtime.rs; Pump is `open_tun` and
--   `tun_pump`, and Pump/Flow runs the pump and smoltcp's calls on `Phy` side by side, with the
--   channels between them; World puts the tasks of Netstack/Spawn beside them, from what `start`
--   has started to the end of every task, in Safety and Ending. Config: src/config.rs. Main:
--   src/main.rs, with `main` itself in Main/Program.
--
-- How state is modelled: structs are records and are passed explicitly. A `ConnState` holds at
-- most one pending read and write; reply channels and command channels are numbers, and a log
-- records what becomes of each reply sender. The actor's map of connections is an association list
-- by socket handle. `none` from an operation of the actor is a panic (a handle that names no
-- socket). What comes from outside the repository's code is an argument: which commands `try_recv`
-- finds, which callers have given up, whether a channel has room, how smoltcp's polls change the
-- sockets, and what reads and writes of the upstream give. Loops over such events are recursion on
-- the list of events, and fuel is used in two places: in the loop of `Phy::receive`, where one
-- more than the number of queued packets is enough, and in the printer of decimal numbers, where a
-- number plus one is enough.
--
-- smoltcp's sockets are a record of operations (`Tcp`, `SocketSet`) and their documented laws
-- (`TcpLaws`, `SocketSetLaws`), which the theorems on the netstack take as parameters;
-- Netstack/Toy implements them with plain lists, and the tests run the actor over it. smoltcp's
-- `Interface`, the `tun` crate and tokio's channels are taken in the same way (`InterfaceApi`,
-- `Tun`, `Mpsc`). Bytes are numbers and texts are lists of bytes; a number that the program
-- narrows is reduced modulo the power of two (`% 256`, `% 2 ^ 16`).
--
-- Not modelled: smoltcp, tokio, the tun crate and clap; logging; the shell scripts and the tests.
pub mod Common
pub mod Net
pub mod Stream
pub mod Mpsc
pub mod Socks5
pub mod Proxy
pub mod Config
pub mod Netstack
pub mod Relay
pub mod Device
pub mod Runtime
pub mod Main
