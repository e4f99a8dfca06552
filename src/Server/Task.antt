-- ===== src/Server/Task.antt =====
-- server/src/connection/task.rs: the relay tasks, given what the network answers.
pub mod Total
pub mod Stream
use tuic.Prelude.{
  ℕ, ◌%◌, Bool, true, false, List, [], ◌∷◌, ◌++◌, Option, none, some, Result, ok, err, panicked,
  Answer, success, failure, answered, map_err, ◌>>=◌, if◌then◌else◌, length,
}
use tuic.Protocol.Reader.{IoError, read_exact}
use tuic.Protocol.Address.{SocketAddr, Address, domain_address, socket_address}
use tuic.Protocol.Command.{response, packet, write_command}
use tuic.Server.Udp.{SessionMap, send}
use tuic.Server.Udp

-- `quinn::ConnectionError`, as far as the program tells its cases apart.
pub data ConnectionError : Type 0 where
  timed_out locally_closed : ConnectionError
  other : ℕ → ConnectionError

pub data TaskError : Type 0 where
  io : IoError → TaskError
  connection : ConnectionError → TaskError
  read_stream : IoError → TaskError
  write_stream : ℕ → TaskError
  send_datagram : ℕ → TaskError

-- What the operating system and the transport answer to one task. `write_header` is the answer to
-- the write of a command to a stream, `write_all` to that of a packet behind it.
pub record Env : Type 0 where
  pub bind : Answer IoError (Unit {0})
  pub lookup_host : List ℕ → ℕ → Answer IoError (List SocketAddr)
  pub tcp_connect : SocketAddr → Bool
  pub write_header : Answer IoError (Unit {0})
  pub copy_bidirectional : Answer IoError (Unit {0})
  pub open_uni : Answer ConnectionError (Unit {0})
  pub write_all : Answer ℕ (Unit {0})
  pub finish : Answer ℕ (Unit {0})
  pub try_send_datagram : Answer ℕ (Unit {0})

-- What `connect` leaves behind: the bytes written to the client's stream, the target that the
-- stream is joined to, whether the stream was finished, and the result.
pub record Connected : Type 0 where
  pub written : List ℕ
  pub target : Option SocketAddr
  pub finished : Bool
  pub result : Result TaskError (Unit {0})

unfoldable pub resolve : Env → Address → Answer IoError (List SocketAddr)
resolve env (socket_address addr) = success (addr ∷ [])
resolve env (domain_address domain port) = env.lookup_host domain port

-- The loop over the addresses, which stops at the first that accepts.
unfoldable pub first_connected : (SocketAddr → Bool) → List SocketAddr → Option SocketAddr
first_connected tcp_connect [] = none
first_connected tcp_connect (addr ∷ addrs) =
    if tcp_connect addr then some addr else first_connected tcp_connect addrs

abbrev is_success {ℓ κ} : {E : Type κ} {A : Type ℓ} → Answer E A → Bool
is_success (success a) = true
is_success (failure e) = false

abbrev stopped : Result TaskError (Unit {0}) → Connected
stopped r = record { written = []; target = none; finished = false; result = r }

-- The answer to the client once the loop is over.
unfoldable pub respond : Env → Option SocketAddr → Connected
respond env target = elim env.write_header [
  | success _ ↦ elim target [
    | some addr ↦ record {
      written = write_command (response true) [];
      target = some addr;
      finished = false;
      result = map_err io (answered env.copy_bidirectional);
    }
    | none ↦ record {
      written = write_command (response false) [];
      target = none;
      finished = is_success env.finish;
      result = map_err write_stream (answered env.finish);
    }
  ]
  | failure e ↦ stopped (err (io e))
]

unfoldable pub connect : Env → Address → Connected
unfolding resolve first_connected respond
connect env addr = elim (resolve env addr) [
  | success addrs ↦ respond env (first_connected env.tcp_connect addrs)
  | failure e ↦ stopped (err (io e))
]

abbrev in_task {ℓ} : {S : Type ℓ} → S × Answer IoError (Unit {0}) → S × Result TaskError (Unit {0})
in_task (s, r) = (s, map_err io (answered r))

unfoldable pub packet_from_uni_stream :
    Env → List ℕ → SessionMap → ℕ → ℕ → Address → SessionMap × Result TaskError (Unit {0})
packet_from_uni_stream env stream map assoc_id len addr = elim (read_exact len stream) [
  | ok (buf, _) ↦ in_task (send assoc_id buf addr env.bind map)
  | err e ↦ (map, err (read_stream e))
  | panicked ↦ (map, panicked)
]

unfoldable pub packet_from_datagram :
    Env → List ℕ → SessionMap → ℕ → Address → SessionMap × Result TaskError (Unit {0})
packet_from_datagram env pkt map assoc_id addr = in_task (send assoc_id pkt addr env.bind map)

-- What the server sends to the client: a finished stream or a datagram.
pub data Sent : Type 0 where
  uni_stream : List ℕ → Sent
  datagram : List ℕ → Sent

-- A packet behind its header. `pkt.len() as u16` keeps the low 16 bits.
unfoldable pub frame : ℕ → List ℕ → Address → List ℕ
frame assoc_id pkt addr = write_command (packet assoc_id (length pkt % 65536) addr) [] ++ pkt

-- A stream that is not finished, because a write failed, is not in the list.
unfoldable pub packet_to_uni_stream :
    Env → ℕ → List ℕ → Address → List Sent × Result TaskError (Unit {0})
unfolding frame
packet_to_uni_stream env assoc_id pkt addr =
    elim (map_err connection (answered env.open_uni) >>= λ _.
    map_err io (answered env.write_header) >>= λ _.
    map_err write_stream (answered env.write_all) >>= λ _.
    map_err write_stream (answered env.finish)) [
      | ok _ ↦ (uni_stream (frame assoc_id pkt addr) ∷ [], ok tt)
      | err e ↦ ([], err e)
      | panicked ↦ ([], panicked)
    ]

unfoldable pub packet_to_datagram :
    Env → ℕ → List ℕ → Address → List Sent × Result TaskError (Unit {0})
unfolding frame
packet_to_datagram env assoc_id pkt addr = elim env.try_send_datagram [
  | success _ ↦ (datagram (frame assoc_id pkt addr) ∷ [], ok tt)
  | failure e ↦ ([], err (send_datagram e))
]

unfoldable pub dissociate : SessionMap → ℕ → SessionMap × Result TaskError (Unit {0})
dissociate map assoc_id = (Udp.dissociate assoc_id map, ok tt)
