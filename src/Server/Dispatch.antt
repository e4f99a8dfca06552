-- ===== src/Server/Dispatch.antt =====
-- server/src/connection/dispatch.rs: what a connection does with a stream, a datagram and a packet
-- that came back. A handler runs up to the point where it waits for the authentication (`…_head`)
-- and goes on from there with the answer it waited for (`…_body`).
pub mod Packets
use tuic.Prelude.{
  ℕ, Bool, true, false, List, [], ◌∷◌, ◌++◌, none, some, Result, ok, err, panicked, ◌==◌, ◌&&◌,
  ◌||◌, if◌then◌else◌,
}
use tuic.Prelude.Bytes.{slice_from}
use tuic.Protocol.Reader.{IoError}
use tuic.Protocol.Address.{Address}
use tuic.Protocol.Command.{
  Command, authenticate, connect, packet, dissociate, heartbeat, read_command, command_len,
}
use tuic.Server.Udp.{UdpPacketFrom, UdpPacketSource, SessionMap, claim_uni_stream, claim_datagram}
use tuic.Server.Authenticate.{IsAuthenticated, set_authenticated, wake}
use tuic.Server.Task.{Env, TaskError, Sent, Connected}
use tuic.Server.Task

pub data DispatchError : Type 0 where
  io : IoError → DispatchError
  authentication_failed authentication_timeout bad_command : DispatchError

abbrev pub code_protocol : ℕ
code_protocol = 0xfffffff0

abbrev pub code_authentication_failed : ℕ
code_authentication_failed = 0xfffffff1

abbrev pub code_authentication_timeout : ℕ
code_authentication_timeout = 0xfffffff2

abbrev pub code_bad_command : ℕ
code_bad_command = 0xfffffff3

unfoldable pub as_error_code : DispatchError → ℕ
as_error_code (io e) = code_protocol
as_error_code authentication_failed = code_authentication_failed
as_error_code authentication_timeout = code_authentication_timeout
as_error_code bad_command = code_bad_command

-- The state that the tasks of one connection share. `closes` lists the codes of the calls of
-- `close` on the QUIC connection, `sent` what went to the client, and `relays` the answers to its
-- `Connect` commands, each oldest first.
pub record Connection : Type 0 where
  pub closes : List ℕ
  pub sent : List Sent
  pub relays : List Connected
  pub udp_packet_from : UdpPacketFrom
  pub udp_sessions : SessionMap
  pub token : List (List ℕ)
  pub is_authenticated : IsAuthenticated

abbrev pub Outcome : Type 0
Outcome = Result DispatchError (Unit {0})

-- A handler is over, or waits for the authentication with what it will go on with.
pub data Progress (A : Type 0) : Type 0 where
  done : Outcome → Progress A
  waiting : A → Progress A

abbrev pub same_bytes : List ℕ → List ℕ → Bool
same_bytes [] [] = true
same_bytes [] (y ∷ ys) = false
same_bytes (x ∷ xs) [] = false
same_bytes (x ∷ xs) (y ∷ ys) = x == y && same_bytes xs ys

-- `HashSet::contains`.
abbrev pub contains : List ℕ → List (List ℕ) → Bool
contains digest [] = false
contains digest (t ∷ ts) = same_bytes t digest || contains digest ts

unfoldable pub close : ℕ → Connection → Connection
close code conn = record conn { closes = conn.closes ++ (code ∷ []) }

-- The branch of `process_uni_stream` for an `Authenticate` command.
unfoldable pub check_digest : List ℕ → Connection → Connection × Outcome
unfolding close as_error_code set_authenticated wake
check_digest digest conn =
    if contains digest conn.token
    then (
      record conn { is_authenticated = (wake (set_authenticated conn.is_authenticated)).0 },
      ok tt,
    )
    else (
      (let closed = close (as_error_code authentication_failed) conn in
          record closed { is_authenticated = (wake closed.is_authenticated).0 }),
      err authentication_failed,
    )

unfoldable pub uni_stream_command :
    Command × List ℕ → Connection → Connection × Progress (Command × List ℕ)
unfolding check_digest
uni_stream_command (authenticate digest, stream) conn =
    let (after, outcome) = check_digest digest conn in (after, done outcome)
uni_stream_command (cmd, stream) conn = (conn, waiting (cmd, stream))

unfoldable pub uni_stream_head : List ℕ → Connection → Connection × Progress (Command × List ℕ)
unfolding uni_stream_command
uni_stream_head stream conn = elim (read_command stream) [
  | ok read ↦ uni_stream_command read conn
  | err e ↦ (conn, done (err (io e)))
  | panicked ↦ (conn, done panicked)
]

-- A task's own errors are logged and forgotten; a panic ends the handler.
abbrev pub logged : Connection → Result TaskError (Unit {0}) → Connection × Outcome
logged conn (ok _) = (conn, ok tt)
logged conn (err e) = (conn, ok tt)
logged conn panicked = (conn, panicked)

abbrev with_sessions : Connection → SessionMap × Result TaskError (Unit {0}) → Connection × Outcome
with_sessions conn (sessions, r) = logged (record conn { udp_sessions = sessions }) r

-- The match behind the wait in `process_uni_stream`.
unfoldable pub uni_stream_relay : Env → Command × List ℕ → Connection → Connection × Outcome
unfolding claim_uni_stream
uni_stream_relay env (authenticate digest, stream) conn = (conn, panicked)
uni_stream_relay env (packet assoc_id len addr, stream) conn =
    let (from, mine) = claim_uni_stream conn.udp_packet_from in
    let claimed = record conn { udp_packet_from = from } in
    if mine
    then with_sessions claimed
        (Task.packet_from_uni_stream env stream claimed.udp_sessions assoc_id len addr)
    else (claimed, err bad_command)
uni_stream_relay env (dissociate assoc_id, stream) conn =
    with_sessions conn (Task.dissociate conn.udp_sessions assoc_id)
uni_stream_relay env (heartbeat, stream) conn = (conn, ok tt)
uni_stream_relay env (cmd, stream) conn = (conn, err bad_command)

unfoldable pub uni_stream_body : Env → Bool → Command × List ℕ → Connection → Connection × Outcome
uni_stream_body env authed read conn =
    if authed then uni_stream_relay env read conn else (conn, err authentication_timeout)

-- `process_bi_stream`.
unfoldable pub bi_stream_head : List ℕ → Connection → Connection × Progress (Command × List ℕ)
bi_stream_head recv conn = elim (read_command recv) [
  | ok read ↦ (conn, waiting read)
  | err e ↦ (conn, done (err (io e)))
  | panicked ↦ (conn, done panicked)
]

unfoldable pub bi_stream_relay : Env → Command × List ℕ → Connection → Connection × Outcome
bi_stream_relay env (connect addr, recv) conn =
    let answer = Task.connect env addr in
    logged (record conn { relays = conn.relays ++ (answer ∷ []) }) answer.result
bi_stream_relay env (cmd, recv) conn = (conn, err bad_command)

unfoldable pub bi_stream_body : Env → Bool → Command × List ℕ → Connection → Connection × Outcome
bi_stream_body env authed read conn =
    if authed then bi_stream_relay env read conn else (conn, err authentication_timeout)

-- `process_datagram`.
unfoldable pub datagram_head : List ℕ → Connection → Connection × Progress (Command × List ℕ)
datagram_head pkt conn = elim (read_command pkt) [
  | ok (cmd, _) ↦ (conn, waiting (cmd, pkt))
  | err e ↦ (conn, done (err (io e)))
  | panicked ↦ (conn, done panicked)
]

unfoldable pub datagram_relay : Env → Command × List ℕ → Connection → Connection × Outcome
unfolding claim_datagram
datagram_relay env (packet assoc_id len addr, pkt) conn =
    let (from, mine) = claim_datagram conn.udp_packet_from in
    let claimed = record conn { udp_packet_from = from } in
    if mine
    then elim (slice_from {E = DispatchError} (command_len (packet assoc_id len addr)) pkt) [
      | ok payload ↦
          with_sessions claimed
            (Task.packet_from_datagram env payload claimed.udp_sessions assoc_id addr)
      | err e ↦ (claimed, err e)
      | panicked ↦ (claimed, panicked)
    ]
    else (claimed, err bad_command)
datagram_relay env (cmd, pkt) conn = (conn, err bad_command)

unfoldable pub datagram_body : Env → Bool → Command × List ℕ → Connection → Connection × Outcome
datagram_body env authed read conn =
    if authed then datagram_relay env read conn else (conn, err authentication_timeout)

abbrev with_sent : Connection → List Sent × Result TaskError (Unit {0}) → Connection × Outcome
with_sent conn (out, r) = logged (record conn { sent = conn.sent ++ out }) r

-- `process_received_udp_packet`: the packet goes back the way the client's packets came, and
-- `unwrap` panics where no packet came yet.
unfoldable pub process_received_udp_packet :
    Env → ℕ → List ℕ → Address → Connection → Connection × Outcome
process_received_udp_packet env assoc_id pkt addr conn = elim conn.udp_packet_from [
  | none ↦ (conn, panicked)
  | some source ↦ elim source [
    | UdpPacketSource.uni_stream ↦ with_sent conn (Task.packet_to_uni_stream env assoc_id pkt addr)
    | UdpPacketSource.datagram ↦ with_sent conn (Task.packet_to_datagram env assoc_id pkt addr)
  ]
]
