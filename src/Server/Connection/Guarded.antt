-- ===== src/Server/Connection/Guarded.antt =====
-- What a connection of server/src/connection/mod.rs does not have before its authentication, and that
-- the handlers keep it so.
use tuic.Prelude.{ℕ, ◌≤◌, ◌≡◌, refl, arith, Bool, true, false, List, [], none, length}
use tuic.Protocol.Command.{
  Command, response, authenticate, connect, packet, dissociate, heartbeat, command_len,
}
use tuic.Protocol.Address.{Address}
use tuic.Server.Udp.{UdpPacketSource, claim_uni_stream, claim_datagram}
use tuic.Server.Task.{Env}
use tuic.Server.Task as Relay
use tuic.Server.Dispatch.{
  Connection, uni_stream_body, uni_stream_relay, bi_stream_body, bi_stream_relay, datagram_body,
  datagram_relay, process_received_udp_packet, check_digest,
}
use tuic.Server.Connection.{Task, task_body}

abbrev pub authed : Connection → Bool
authed c = c.is_authenticated.is_authenticated

-- Before the authentication a connection has no relay mode, no UDP session, no answered `Connect`,
-- and has sent nothing; and it has a relay mode before it has a session or has sent a packet.
pub record IsGuarded (c : Connection) : Type 0 where
  pub no_mode : authed c ≡ false → c.udp_packet_from ≡ none
  pub no_relay : authed c ≡ false → c.relays ≡ []
  pub no_session : c.udp_packet_from ≡ none → c.udp_sessions ≡ []
  pub no_packet : c.udp_packet_from ≡ none → c.sent ≡ []

-- A task that waits has read what its second part can go on with.
abbrev pub IsReady : Task → Type 0
IsReady (Task.uni_stream (authenticate digest, r)) = ⊥
IsReady (Task.uni_stream (cmd, r)) = Unit {0}
IsReady (Task.bi_stream (cmd, r)) = Unit {0}
IsReady (Task.datagram (cmd, r)) = command_len cmd ≤ length r

uni_stream_relay-IsGuarded :
    (env : Env) (cmd : Command) (r : List ℕ) (c : Connection)
    → authed c ≡ true
    → IsGuarded c
    → IsGuarded (uni_stream_relay env (cmd, r) c).0
unfolding uni_stream_relay
uni_stream_relay-IsGuarded env (response b) r c a g = g
uni_stream_relay-IsGuarded env (authenticate digest) r c a g = g
uni_stream_relay-IsGuarded env (connect addr) r c a g = g
uni_stream_relay-IsGuarded env (packet assoc_id len addr) r c a g = ground arith
uni_stream_relay-IsGuarded env (dissociate assoc_id) r c a g =
    unfold Relay.dissociate tuic.Server.Udp.dissociate in ground arith
uni_stream_relay-IsGuarded env heartbeat r c a g = g

bi_stream_relay-IsGuarded :
    (env : Env) (cmd : Command) (r : List ℕ) (c : Connection)
    → authed c ≡ true
    → IsGuarded c
    → IsGuarded (bi_stream_relay env (cmd, r) c).0
unfolding bi_stream_relay
bi_stream_relay-IsGuarded env (connect addr) r c a g = ground arith
bi_stream_relay-IsGuarded env _ r c a g = g

datagram_relay-IsGuarded :
    (env : Env) (cmd : Command) (r : List ℕ) (c : Connection)
    → authed c ≡ true
    → IsGuarded c
    → IsGuarded (datagram_relay env (cmd, r) c).0
unfolding datagram_relay
datagram_relay-IsGuarded env (packet assoc_id len addr) r c a g = ground arith
datagram_relay-IsGuarded env _ r c a g = g

-- A task that goes on after its wait keeps the connection guarded.
pub task_body-IsGuarded :
    (env : Env) (b : Bool) (t : Task) (c : Connection)
    → (b ≡ true → authed c ≡ true)
    → IsGuarded c
    → IsGuarded (task_body env b t c).0
unfolding task_body uni_stream_body bi_stream_body datagram_body
task_body-IsGuarded env true (Task.uni_stream (cmd, r)) c a g =
    uni_stream_relay-IsGuarded env cmd r c (a refl) g
task_body-IsGuarded env true (Task.bi_stream (cmd, r)) c a g =
    bi_stream_relay-IsGuarded env cmd r c (a refl) g
task_body-IsGuarded env true (Task.datagram (cmd, r)) c a g =
    datagram_relay-IsGuarded env cmd r c (a refl) g
task_body-IsGuarded env false (Task.uni_stream read) c a g = g
task_body-IsGuarded env false (Task.bi_stream read) c a g = g
task_body-IsGuarded env false (Task.datagram read) c a g = g

pub check_digest-IsGuarded :
    (digest : List ℕ) (c : Connection) → IsGuarded c → IsGuarded (check_digest digest c).0
unfolding check_digest
check_digest-IsGuarded digest c g = ground arith

pub process_received_udp_packet-IsGuarded :
    (env : Env) (id : ℕ) (pkt : List ℕ) (addr : Address) (c : Connection)
    → IsGuarded c
    → IsGuarded (process_received_udp_packet env id pkt addr c).0
unfolding process_received_udp_packet
process_received_udp_packet-IsGuarded env id pkt addr c g = ground arith
