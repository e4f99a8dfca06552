-- ===== src/Server/Udp.antt =====
-- server/src/connection/udp.rs: the relay mode of a connection and its UDP sessions.
pub mod Sessions
pub mod Refinement
use tuic.Prelude.{
  ℕ, Bool, true, false, List, [], ◌∷◌, ◌++◌, Option, none, some, Answer, success, failure, take,
  if◌then◌else◌,
}
use tuic.Prelude.Table.{lookup, insert, remove}
use tuic.Protocol.Reader.{IoError}
use tuic.Protocol.Address.{SocketAddr, Address, socket_address}

pub data UdpPacketSource : Type 0 where
  uni_stream datagram : UdpPacketSource

-- The atomic cell in which the first `Packet` command of a connection fixes the relay mode.
abbrev pub UdpPacketFrom : Type 0
UdpPacketFrom = Option UdpPacketSource

abbrev pub is_source : UdpPacketSource → UdpPacketFrom → Bool
is_source uni_stream (some uni_stream) = true
is_source datagram (some datagram) = true
is_source _ _ = false

-- `compare_exchange(None, Some(source))`, then what the two callers make of its result: the cell
-- and whether the caller may go on.
unfoldable pub claim : UdpPacketSource → UdpPacketFrom → UdpPacketFrom × Bool
claim source none = (some source, true)
claim source (some from) = (some from, is_source source (some from))

-- `UdpPacketFrom::uni_stream` and `UdpPacketFrom::datagram`.
unfoldable pub claim_uni_stream : UdpPacketFrom → UdpPacketFrom × Bool
unfolding claim
claim_uni_stream cell = claim uni_stream cell

unfoldable pub claim_datagram : UdpPacketFrom → UdpPacketFrom × Bool
unfolding claim
claim_datagram cell = claim datagram cell

-- A session is the sending end of its channel. `queue` is what its task has not taken yet, `sent`
-- what the task passed to the socket, and `alive` says whether the receiving end still exists.
pub record UdpSession : Type 0 where
  pub queue : List (List ℕ × Address)
  pub sent : List (List ℕ × Address)
  pub alive : Bool

abbrev pub SessionMap : Type 0
SessionMap = List (ℕ × UdpSession)

-- `UdpSession::new`, given whether a socket could be bound.
unfoldable pub new_session : Answer IoError (Unit {0}) → Answer IoError UdpSession
new_session (success _) = success (record { queue = []; sent = []; alive = true })
new_session (failure e) = failure e

-- `send_pkt_tx.send((pkt, addr))`, whose error (no receiver) is ignored.
unfoldable pub push_packet : List ℕ → Address → UdpSession → UdpSession
push_packet pkt addr s = if s.alive then record s { queue = s.queue ++ ((pkt, addr) ∷ []) } else s

-- The second half of `UdpSessionMap::send` for an `assoc_id` that was not in the map: the lock is
-- taken anew once the socket is bound, and the packet goes to the session just made.
unfoldable pub send_new :
    ℕ
    → List ℕ
    → Address
    → Answer IoError (Unit {0})
    → SessionMap
    → SessionMap × Answer IoError (Unit {0})
unfolding new_session push_packet
send_new assoc_id pkt addr bind map = elim (new_session bind) [
  | success assoc ↦ (insert assoc_id (push_packet pkt addr assoc) map, success tt)
  | failure e ↦ (map, failure e)
]

-- `UdpSessionMap::send` where no other task runs while the socket is bound.
unfoldable pub send :
    ℕ
    → List ℕ
    → Address
    → Answer IoError (Unit {0})
    → SessionMap
    → SessionMap × Answer IoError (Unit {0})
unfolding send_new push_packet
send assoc_id pkt addr bind map = elim (lookup assoc_id map) [
  | some session ↦ (insert assoc_id (push_packet pkt addr session) map, success tt)
  | none ↦ send_new assoc_id pkt addr bind map
]

-- `UdpSessionMap::dissociate`.
unfoldable pub dissociate : ℕ → SessionMap → SessionMap
dissociate assoc_id map = remove assoc_id map

-- One round of `UdpSession::listen_send_packet`: the next packet goes to the socket, and an error
-- of `send_to` ends the task and drops its receiver.
unfoldable pub send_packet_round : Answer IoError (Unit {0}) → UdpSession → UdpSession
send_packet_round outcome s = elim s.queue [
  | [] ↦ s
  | p ∷ rest ↦ elim outcome [
    | success _ ↦ record s { queue = rest; sent = s.sent ++ (p ∷ []) }
    | failure e ↦ record s { queue = []; alive = false }
  ]
]

-- One round of `UdpSession::listen_receive_packet`: a datagram is cut to the buffer's size.
unfoldable pub receive_packet : ℕ → ℕ → List ℕ → SocketAddr → ℕ × List ℕ × Address
receive_packet max_pkt_size assoc_id pkt addr =
    (assoc_id, take max_pkt_size pkt, socket_address addr)
