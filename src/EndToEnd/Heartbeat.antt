-- ===== src/EndToEnd/Heartbeat.antt =====
-- A heartbeat: `heartbeat` of client/src/relay/connection.rs, and what
-- server/src/connection/dispatch.rs makes of it.
use tuic.Prelude.{ℕ, ◌≡◌, ◌≢◌, refl, arith, List, [], ◌∷◌, ◌++◌, ok}
use tuic.Protocol.Command.{heartbeat, read_command, read_body, write_command}
use tuic.Client.Connection as Client
use tuic.Client.Request.Associate.{IsWorking}
use tuic.Server.Task.{Env}
use tuic.Server.Dispatch.{
  Connection, waiting, uni_stream_head, uni_stream_command, uni_stream_relay,
}

heartbeat_read : read_command (write_command heartbeat []) ≡ ok (heartbeat, [])
unfolding read_command read_body write_command
heartbeat_read = refl

heartbeat_waits :
    (bytes : List ℕ) (s : Connection)
    → read_command bytes ≡ ok (heartbeat, [])
    → uni_stream_head bytes s ≡ (s, waiting (heartbeat, []))
unfolding uni_stream_head uni_stream_command
heartbeat_waits bytes s h = rw (h, uni_stream_head)

-- A tick with a UDP session open, over a transport that takes everything, sends one heartbeat and
-- changes nothing else; the server waits with it for the authentication, and behind that does nothing.
pub heartbeat_tick-relay :
    (client : Client.Env) (c : Client.Connection) (env : Env) (s : Connection)
    → IsWorking client
    → c.udp_sessions ≢ []
    → let bytes = write_command heartbeat [] in
      (Client.heartbeat_tick client c
        ≡ record c { wire = c.wire ++ (Client.uni_stream bytes ∷ []) })
      × (uni_stream_head bytes s ≡ (s, waiting (heartbeat, [])))
      × (uni_stream_relay env (heartbeat, []) s ≡ (s, ok tt))
unfolding Client.heartbeat_tick uni_stream_relay
heartbeat_tick-relay client c env s w h =
    (ground arith, heartbeat_waits (write_command heartbeat []) s heartbeat_read, refl)
