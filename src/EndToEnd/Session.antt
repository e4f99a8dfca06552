-- ===== src/EndToEnd/Session.antt =====
-- A UDP session from the socket of client/src/socks5/associate.rs to the sessions of
-- server/src/connection/udp.rs, over a connection that loses nothing and keeps the order.
use tuic.Prelude.{ℕ, List, []}
use tuic.Protocol.Command.{dissociate, write_command}
use tuic.Client.Connection as Client
use tuic.Client.Request.Process.{Request}
use tuic.Server.Dispatch.{Connection}
use tuic.Server.Connection.{Task}
use tuic.Server.Task as Relay
use tuic.Server.Udp as Udp

-- What the client writes at the end of a session.
abbrev pub farewell : ℕ → List ℕ
farewell assoc_id = write_command (dissociate assoc_id) []
