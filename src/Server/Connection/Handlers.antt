-- ===== src/Server/Connection/Handlers.antt =====
-- What the handlers of server/src/connection/dispatch.rs keep of the connection's state.
use tuic.Prelude.{
  ℕ, ◌≡◌, ◌≢◌, refl, arith, Bool, true, false, List, [], none, panicked, All, ap, drop, length,
  length-append, Result-cases, inl, inr,
}
use tuic.Prelude.Bytes.{IsByte}
use tuic.Protocol.Command.{
  Command, response, authenticate, connect, packet, dissociate, heartbeat, read_command,
  write_command, command_len,
}
use tuic.Protocol.Command.Total.{read_command-ne-panicked}
use tuic.Protocol.Command.Canonical.{read_command_inv}
use tuic.Protocol.Command.Size.{length-write_command}
use tuic.Protocol.Address.{Address}
use tuic.Server.Task.{Env}
use tuic.Server.Task.Total.{
  connect-ne-panicked, packet_from_uni_stream-ne-panicked, packet_from_datagram-ne-panicked,
  packet_to_uni_stream-ne-panicked, packet_to_datagram-ne-panicked,
}
use tuic.Server.Task as Relay
use tuic.Server.Dispatch.{
  Connection, Progress, done, waiting, uni_stream_head, uni_stream_body, uni_stream_command,
  uni_stream_relay, bi_stream_head, bi_stream_body, bi_stream_relay, datagram_head, datagram_body,
  datagram_relay, process_received_udp_packet, check_digest,
}
use tuic.Server.Connection.{Task, task_body}
use tuic.Server.Connection.Guarded.{IsGuarded, IsReady, check_digest-IsGuarded}

-- A task that is ready does not panic: neither `unreachable!()` nor the slice of the datagram.
pub task_body-ne-panicked :
    (env : Env) (b : Bool) (t : Task) (c : Connection)
    → IsReady t
    → (task_body env b t c).1 ≢ panicked
unfolding task_body uni_stream_body bi_stream_body datagram_body uni_stream_relay bi_stream_relay
    datagram_relay Relay.dissociate
task_body-ne-panicked env true (Task.uni_stream (response x, r)) c h p = cc
task_body-ne-panicked env true (Task.uni_stream (authenticate digest, r)) c h p = h
task_body-ne-panicked env true (Task.uni_stream (connect x, r)) c h p = cc
task_body-ne-panicked env true (Task.uni_stream (packet assoc_id len addr, r)) c h p =
    ground (arith, packet_from_uni_stream-ne-panicked env r c.udp_sessions assoc_id len addr)
task_body-ne-panicked env true (Task.uni_stream (dissociate x, r)) c h p = cc
task_body-ne-panicked env true (Task.uni_stream (heartbeat, r)) c h p = cc
task_body-ne-panicked env true (Task.bi_stream (connect addr, r)) c h p =
    ground (arith, connect-ne-panicked env addr)
task_body-ne-panicked env true (Task.bi_stream (_, r)) c h p = cc
task_body-ne-panicked env true (Task.datagram (packet assoc_id len addr, r)) c h p = ground (
  arith,
  packet_from_datagram-ne-panicked env (drop (command_len (packet assoc_id len addr)) r)
      c.udp_sessions assoc_id addr,
)
task_body-ne-panicked env true (Task.datagram (_, r)) c h p = cc
task_body-ne-panicked env false (Task.uni_stream read) c h p = cc
task_body-ne-panicked env false (Task.bi_stream read) c h p = cc
task_body-ne-panicked env false (Task.datagram read) c h p = cc

pub process_received_udp_packet-ne-panicked :
    (env : Env) (id : ℕ) (pkt : List ℕ) (addr : Address) (c : Connection)
    → c.udp_packet_from ≢ none
    → (process_received_udp_packet env id pkt addr c).1 ≢ panicked
unfolding process_received_udp_packet
process_received_udp_packet-ne-panicked env id pkt addr c h p = ground (
  arith,
  packet_to_uni_stream-ne-panicked env id pkt addr,
  packet_to_datagram-ne-panicked env id pkt addr,
)

-- What the first part of a handler hands on: a ready task, or an outcome that is no panic; the
-- connection stays guarded.
abbrev pub Started : (Command × List ℕ → Task) → Connection × Progress (Command × List ℕ) → Type 0
Started make (c, done o) = IsGuarded c × (o ≢ panicked)
Started make (c, waiting read) = IsGuarded c × IsReady (make read)

check_digest-ne-panicked : (digest : List ℕ) (c : Connection) → (check_digest digest c).1 ≢ panicked
unfolding check_digest
check_digest-ne-panicked digest c p = ground arith

uni_stream_command-Started :
    (cmd : Command) (r : List ℕ) (c : Connection)
    → IsGuarded c
    → Started Task.uni_stream (uni_stream_command (cmd, r) c)
unfolding uni_stream_command
uni_stream_command-Started (authenticate digest) r c g =
    (check_digest-IsGuarded digest c g, check_digest-ne-panicked digest c)
uni_stream_command-Started _ r c g = (g, tt)

pub uni_stream_head-Started :
    (bytes : List ℕ) (c : Connection)
    → IsGuarded c
    → Started Task.uni_stream (uni_stream_head bytes c)
unfolding uni_stream_head
uni_stream_head-Started bytes c g = elim (Result-cases (read_command bytes)) [
  | inl ((cmd, r), e) ↦ rw (e, uni_stream_head) (uni_stream_command-Started cmd r c g)
  | inr (inl (e, p)) ↦ rw (p, uni_stream_head) (g, λ q. cc)
  | inr (inr p) ↦ absurd (read_command-ne-panicked bytes p)
]

pub bi_stream_head-Started :
    (bytes : List ℕ) (c : Connection)
    → IsGuarded c
    → Started Task.bi_stream (bi_stream_head bytes c)
unfolding bi_stream_head
bi_stream_head-Started bytes c g = elim (Result-cases (read_command bytes)) [
  | inl ((cmd, r), e) ↦ rw (e, bi_stream_head) (g, tt)
  | inr (inl (e, p)) ↦ rw (p, bi_stream_head) (g, λ q. cc)
  | inr (inr p) ↦ absurd (read_command-ne-panicked bytes p)
]

pub datagram_head-Started :
    (bytes : List ℕ) (c : Connection)
    → All IsByte bytes
    → IsGuarded c
    → Started Task.datagram (datagram_head bytes c)
unfolding datagram_head
datagram_head-Started bytes c h g = elim (Result-cases (read_command bytes)) [
  | inl ((cmd, r), e) ↦
      let (valid, split) = read_command_inv bytes cmd r h e in
      rw (e, datagram_head)
        (
          g,
          omega (
            arith,
            ap length split,
            length-append (write_command cmd []) r,
            length-write_command cmd valid,
          ),
        )
  | inr (inl (e, p)) ↦ rw (p, datagram_head) (g, λ q. cc)
  | inr (inr p) ↦ absurd (read_command-ne-panicked bytes p)
]

uni_stream_relay-mode :
    (env : Env) (cmd : Command) (r : List ℕ) (c : Connection)
    → (uni_stream_relay env (cmd, r) c).0.udp_packet_from ≡ none
    → c.udp_packet_from ≡ none
unfolding uni_stream_relay Relay.dissociate
uni_stream_relay-mode env (response b) r c p = p
uni_stream_relay-mode env (packet assoc_id len addr) r c p = ground arith
uni_stream_relay-mode env _ r c p = p

bi_stream_relay-mode :
    (env : Env) (cmd : Command) (r : List ℕ) (c : Connection)
    → (bi_stream_relay env (cmd, r) c).0.udp_packet_from ≡ none
    → c.udp_packet_from ≡ none
unfolding bi_stream_relay
bi_stream_relay-mode env (connect addr) r c p = ground arith
bi_stream_relay-mode env _ r c p = p

datagram_relay-mode :
    (env : Env) (cmd : Command) (r : List ℕ) (c : Connection)
    → (datagram_relay env (cmd, r) c).0.udp_packet_from ≡ none
    → c.udp_packet_from ≡ none
unfolding datagram_relay
datagram_relay-mode env (packet assoc_id len addr) r c p = ground arith
datagram_relay-mode env _ r c p = p

-- No task takes the relay mode back.
pub task_body-mode :
    (env : Env) (b : Bool) (t : Task) (c : Connection)
    → (task_body env b t c).0.udp_packet_from ≡ none
    → c.udp_packet_from ≡ none
unfolding task_body uni_stream_body bi_stream_body datagram_body
task_body-mode env true (Task.uni_stream (cmd, r)) c p = uni_stream_relay-mode env cmd r c p
task_body-mode env true (Task.bi_stream (cmd, r)) c p = bi_stream_relay-mode env cmd r c p
task_body-mode env true (Task.datagram (cmd, r)) c p = datagram_relay-mode env cmd r c p
task_body-mode env false (Task.uni_stream read) c p = p
task_body-mode env false _ c p = p

pub process_received_udp_packet-mode :
    (env : Env) (id : ℕ) (pkt : List ℕ) (addr : Address) (c : Connection)
    → (process_received_udp_packet env id pkt addr c).0.udp_packet_from ≡ c.udp_packet_from
unfolding process_received_udp_packet
process_received_udp_packet-mode env id pkt addr c = ground arith

uni_stream_command-mode :
    (cmd : Command) (r : List ℕ) (c : Connection)
    → (uni_stream_command (cmd, r) c).0.udp_packet_from ≡ c.udp_packet_from
unfolding uni_stream_command
uni_stream_command-mode (authenticate digest) r c = ground arith
uni_stream_command-mode _ r c = refl

pub uni_stream_head-mode :
    (bytes : List ℕ) (c : Connection)
    → (uni_stream_head bytes c).0.udp_packet_from ≡ c.udp_packet_from
unfolding uni_stream_head
uni_stream_head-mode bytes c = elim (Result-cases (read_command bytes)) [
  | inl ((cmd, r), e) ↦ rw (e, uni_stream_head) (uni_stream_command-mode cmd r c)
  | inr (inl (e, p)) ↦ rw (p, uni_stream_head)
  | inr (inr p) ↦ rw (p, uni_stream_head)
]

pub bi_stream_head_same : (bytes : List ℕ) (c : Connection) → (bi_stream_head bytes c).0 ≡ c
unfolding bi_stream_head
bi_stream_head_same bytes c = ground arith

pub datagram_head_same : (bytes : List ℕ) (c : Connection) → (datagram_head bytes c).0 ≡ c
unfolding datagram_head
datagram_head_same bytes c = ground arith
