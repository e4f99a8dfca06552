-- ===== src/Lib.antt =====
-- A model of TUIC, a proxy over QUIC, and theorems about it.
--
-- The client takes `Connect` and `Associate` requests from its socks5 side and sends them over one
-- QUIC connection to the server, which opens TCP connections and UDP sockets for them. A message is
-- a header in the format of protocol/src/lib.rs, and what follows it; it travels in a bidirectional
-- stream (`Connect` and its answer), in a unidirectional stream or in a datagram. Everything else that a
-- client asks for waits at the server until it has authenticated the connection.
--
-- The modules and the code:
--   Prelude       lists, results, bytes, UTF-8 and tables that the other modules share
--   Protocol      protocol/src/lib.rs: Protocol.Address and Protocol.Command are the types with
--                 `read_from` (read_address, read_command), `write_to_buf` (write_address,
--                 write_command) and the lengths; Protocol.Reader is the stream they read
--   Settings      what server/src/config.rs and client/src/config.rs share: the parsing of numbers
--                 and names, a flag over what is under it, and the files of certificates
--   Quinn         the two halves of a stream of quinn, as a parameter
--   Server        server/src/connection: Server.Udp is udp.rs, Server.Authenticate is
--                 authenticate.rs with `IsClosed` of mod.rs, Server.Task is task.rs,
--                 Server.Dispatch is dispatch.rs, Server.Connection is mod.rs; and in server/src
--                 Server.Config with its children is config.rs, Server.Certificate is
--                 certificate.rs, and Server.Start is server.rs with main.rs
--   Client        client/src/relay: Client.Address, .Stream, .Connection, .Incoming, .Task and
--                 .Request are the files of these names (.Connection.Handshake is `connect_addr`,
--                 .Connection.Heartbeat is the loop of `heartbeat`, .Request.Listen is
--                 `listen_requests`, .Request.Process is `process_request`, .Stream.Ends has the calls
--                 of connection.rs that open a stream); Client.Manage is `manage_connection` of
--                 connection.rs with the loop of `listen_incoming` of incoming.rs; and in client/src
--                 Client.Config with its children is config.rs, Client.Certificate is
--                 certificate.rs, Client.Socks5 is
--                 socks5/connect.rs and bind.rs, .Socks5.Associate is socks5/associate.rs,
--                 .Socks5.Handling is the loop of socks5/mod.rs, and Client.Start is main.rs with the
--                 `init` of relay/mod.rs and of socks5/mod.rs
--   EndToEnd      the two ends together: .Login is the authentication from the settings of both,
--                 .Socks5 the requests of a socks5 client, .Packet one packet, .Delivery and
--                 .Session the packets of a UDP session, .Return those that come back, .Heartbeat the heartbeat
--   Tests         the theorems at concrete inputs
--
-- The state. A stream is the list of the bytes it still delivers. The state that the tasks of one
-- server connection share is the record Server.Dispatch.Connection, which also collects what is
-- seen from outside: the error codes of the calls of `close`, the packets sent to the client, and the
-- answers to `Connect`. What QUIC, sockets, name resolution and the operating system answer is in the
-- records Env of Server.Task, Server.Config, Client.Connection, Client.Config and Client.Socks5, in the
-- records Files, Roots, Quinn and Network, which the definitions take as an
-- argument. The size of a buffer at the socks5 side is a difference that can be negative: `handle` of
-- client/src/socks5/associate.rs has both the panic of a build with overflow checks and the wrap of
-- one without, while the loops of a session are those of a build without, and a panic of theirs is an
-- outcome (`loop_panicked`) that `handle` is given. A result is a value, an error or a panic, so that `unwrap`, `unreachable!` and a slice
-- out of range can be told from errors.
--
-- Concurrency. A handler of the server is cut at its wait for the authentication: the part before
-- it (`…_head`), and the part that goes on with the answer (`…_body`, and `…_relay` where the answer
-- was yes). Server.Connection runs any number of such handlers: an event is a stream, a datagram or
-- a packet that arrives, a waiting task that is polled, the timeout, or the end of a stream, and a run
-- is any list of events, each with the answers of the environment to it. Between two waits for the
-- authentication a handler is one step. Two places where another thread can run in between have
-- models of their own: the futures, whose polls are cut into the reads of the flags and the push of
-- the waker, and `UdpSessionMap::send`, which is cut at the await of the bind (send_new).
-- Client.Manage runs the client's tasks that share the mutex with the connection in the same way. No
-- recursion needs fuel: the loops run over lists.
--
-- Not modelled: logging and `Display`, but for the call of `peer_addr` in the arguments of
-- `log::info!` in client/src/socks5, which can end a handler; the capacity of the channels; `getopts`
-- and serde; the accept loops in time, as connections do not share state but for the client's relay;
-- the random number of a session; an error of `recv_from` on a UDP socket of the server, which ends
-- the task of its session as one of `send_to` does. QUIC, TLS, PEM and socks5 are libraries, whose answers are
-- parameters.
pub mod Prelude
pub mod Protocol
pub mod Quinn
pub mod Server
pub mod Settings
pub mod Client
pub mod EndToEnd
pub mod Tests
