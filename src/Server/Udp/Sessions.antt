-- ===== src/Server/Udp/Sessions.antt =====
-- The UDP sessions of server/src/connection/udp.rs.
use tuic.Prelude.{
  ℕ, ap, ◌⊎◌, ◌↔◌, ◌≡◌, ◌≢◌, arith, Bool, true, false, List, [], ◌∷◌, ◌++◌, Option, none, some,
  success, failure, Option-cases, inl, inr, append_assoc, append-nil, ◌∙◌,
}
use tuic.Prelude.Table.{lookup, insert, remove, lookup-insert, lookup-remove}
use tuic.Protocol.Reader.{IoError}
use tuic.Protocol.Address.{Address}
use tuic.Server.Udp.{
  UdpPacketSource, UdpPacketFrom, uni_stream, datagram, claim_uni_stream, claim_datagram,
  UdpSession, SessionMap, push_packet, send_new, send, dissociate, send_packet_round,
}

abbrev claim_by : UdpPacketSource → UdpPacketFrom → UdpPacketFrom × Bool
claim_by uni_stream cell = claim_uni_stream cell
claim_by datagram cell = claim_datagram cell

-- The relay mode of a connection is the one of its first `Packet` command, for good: after a claim
-- the cell holds a mode, a mode that was there stays, and the caller may go on exactly when the
-- mode is its own.
pub claim_fixes :
    (source : UdpPacketSource) (cell : UdpPacketFrom)
    → let (cell', mine) = claim_by source cell in
      (cell' ≢ none) × ((cell ≡ none) ⊎ (cell' ≡ cell)) × ((mine ≡ true) ↔ (cell' ≡ some source))
unfolding claim_uni_stream claim_datagram
claim_fixes uni_stream none = grind arith
claim_fixes uni_stream (some m) = grind arith
claim_fixes datagram none = grind arith
claim_fixes datagram (some m) = grind arith

-- The packets that a session was handed and has not lost, oldest first.
abbrev pub handed : UdpSession → List (List ℕ × Address)
handed s = s.sent ++ s.queue

abbrev pub handed_of : Option UdpSession → List (List ℕ × Address)
handed_of none = []
handed_of (some s) = handed s

abbrev pub handed_to : ℕ → SessionMap → List (List ℕ × Address)
handed_to assoc_id m = handed_of (lookup assoc_id m)

abbrev pub Alive : Option UdpSession → Type 0
Alive none = Unit {0}
Alive (some s) = s.alive ≡ true

-- Where the session's task runs, or no session exists and a socket can be bound, a packet goes
-- behind the packets handed to its own session, and another session does not change.
pub send_delivers :
    (assoc_id other : ℕ) (pkt : List ℕ) (addr : Address) (m : SessionMap)
    → Alive (lookup assoc_id m)
    → other ≢ assoc_id
    → (handed_to assoc_id (send assoc_id pkt addr (success tt) m).0
        ≡ handed_to assoc_id m ++ ((pkt, addr) ∷ []))
      × ((send assoc_id pkt addr (success tt) m).1 ≡ success tt)
      × (lookup other (send assoc_id pkt addr (success tt) m).0 ≡ lookup other m)
unfolding send
send_delivers assoc_id other pkt addr m h n = elim (Option-cases (lookup assoc_id m)) [
  | inl e ↦
      let made : UdpSession = record { queue = (pkt, addr) ∷ []; sent = []; alive = true } in
      simp (e, send)
        (ground
          (arith, e, lookup-insert assoc_id assoc_id made m, lookup-insert assoc_id other made m))
  | inr (s, e) ↦
      let alive : s.alive ≡ true = rw e at h in
      simp (e, send)
        (ground (
          arith,
          alive,
          lookup-insert assoc_id assoc_id (push_packet pkt addr s) m,
          lookup-insert assoc_id other (push_packet pkt addr s) m,
          append_assoc s.sent s.queue ((pkt, addr) ∷ []),
        ))
]

-- The session of a packet goes on.
pub send-Alive :
    (assoc_id : ℕ) (pkt : List ℕ) (addr : Address) (m : SessionMap)
    → Alive (lookup assoc_id m)
    → Alive (lookup assoc_id (send assoc_id pkt addr (success tt) m).0)
unfolding send
send-Alive assoc_id pkt addr m h = elim (Option-cases (lookup assoc_id m)) [
  | inl e ↦
      let made : UdpSession = record { queue = (pkt, addr) ∷ []; sent = []; alive = true } in
      rw (e, send) (ground (arith, lookup-insert assoc_id assoc_id made m))
  | inr (s, e) ↦
      let alive : s.alive ≡ true = rw e at h in
      rw (e, send)
        (ground (arith, alive, lookup-insert assoc_id assoc_id (push_packet pkt addr s) m))
]

-- Packets sent one after the other to one session, with a socket to be had whenever it is needed.
abbrev pub send_all : ℕ → List (List ℕ × Address) → SessionMap → SessionMap
send_all assoc_id [] m = m
send_all assoc_id ((pkt, addr) ∷ ps) m =
    send_all assoc_id ps (send assoc_id pkt addr (success tt) m).0

send_dead :
    (assoc_id : ℕ) (pkt : List ℕ) (addr : Address) (m : SessionMap) (s : UdpSession)
    → lookup assoc_id m ≡ some s
    → s.alive ≡ false
    → lookup assoc_id (send assoc_id pkt addr (success tt) m).0 ≡ some s
unfolding send
send_dead assoc_id pkt addr m s e dead =
    simp (e, send)
      (ground (arith, dead, lookup-insert assoc_id assoc_id (push_packet pkt addr s) m))

send_all_dead :
    (assoc_id : ℕ) (ps : List (List ℕ × Address)) (m : SessionMap) (s : UdpSession)
    → lookup assoc_id m ≡ some s
    → s.alive ≡ false
    → lookup assoc_id (send_all assoc_id ps m) ≡ some s
send_all_dead assoc_id [] m s e dead = e
send_all_dead assoc_id ((pkt, addr) ∷ ps) m s e dead =
    send_all_dead assoc_id ps _ s (send_dead assoc_id pkt addr m s e dead) dead

-- One packet that the socket refuses, for instance for a domain name that does not resolve, ends a
-- session for good: its entry stays in the map, and every packet sent to it later is lost, as are
-- the packets that waited in its queue.
pub send_all-after_failure :
    (assoc_id : ℕ) (s : UdpSession) (e : IoError) (m : SessionMap) (ps : List (List ℕ × Address))
    → s.queue ≢ []
    → handed_to assoc_id
        (send_all assoc_id ps (insert assoc_id (send_packet_round (failure e) s) m))
      ≡ s.sent
unfolding send_packet_round
send_all-after_failure assoc_id s e m ps q =
    let ended = send_packet_round (failure e) s in
    let dead : ended.alive ≡ false = ground arith in
    rw
      (send_all_dead assoc_id ps (insert assoc_id ended m) ended
        (ground (arith, lookup-insert assoc_id assoc_id ended m)) dead)
      (ground (arith, append-nil s.sent))

send_first :
    (assoc_id : ℕ) (pkt : List ℕ) (addr : Address) (m : SessionMap)
    → lookup assoc_id m ≡ none
    → (send assoc_id pkt addr (success tt) m).0
      ≡ insert assoc_id (record { queue = (pkt, addr) ∷ []; sent = []; alive = true }) m
unfolding send
send_first assoc_id pkt addr m h = rw (h, send)

send_again :
    (assoc_id : ℕ) (pkt : List ℕ) (addr : Address) (m : SessionMap) (s : UdpSession)
    → lookup assoc_id m ≡ some s
    → (send assoc_id pkt addr (success tt) m).0 ≡ insert assoc_id (push_packet pkt addr s) m
unfolding send
send_again assoc_id pkt addr m s h = rw (h, send)

-- Two tasks that both find no session for an `assoc_id` before either has bound its socket: the
-- second one's session replaces the first one's, whose packet is in no session of the map. One
-- after the other they would share a session.
pub send_new_race :
    (assoc_id : ℕ) (pkt pkt' : List ℕ) (addr addr' : Address) (m : SessionMap)
    → lookup assoc_id m ≡ none
    → (handed_to assoc_id
          (send_new assoc_id pkt' addr'
            (success tt)
            (send_new assoc_id pkt addr (success tt) m).0).0
        ≡ (pkt', addr') ∷ [])
      × (handed_to assoc_id (send_all assoc_id ((pkt, addr) ∷ (pkt', addr') ∷ []) m)
          ≡ (pkt, addr) ∷ (pkt', addr') ∷ [])
unfolding send_new
send_new_race assoc_id pkt pkt' addr addr' m h =
    let first : UdpSession = record { queue = (pkt, addr) ∷ []; sent = []; alive = true } in
    let second : UdpSession = record { queue = (pkt', addr') ∷ []; sent = []; alive = true } in
    let m' : SessionMap = insert assoc_id first m in
    let e : lookup assoc_id m' ≡ some first =
      ground (arith, lookup-insert assoc_id assoc_id first m) in
    (
      ground (arith, lookup-insert assoc_id assoc_id second m'),
      ap (λ (t : SessionMap). handed_to assoc_id (send assoc_id pkt' addr' (success tt) t).0)
            (send_first assoc_id pkt addr m h)
          ∙ ap (handed_to assoc_id) (send_again assoc_id pkt' addr' m' first e)
          ∙ (unfold push_packet in
              ground (arith, lookup-insert assoc_id assoc_id (push_packet pkt' addr' first) m')),
    )

-- After a `Dissociate` there is no session; the next packet, for which a socket can be bound, goes
-- to a new one that holds nothing else, and another session is as it was.
pub send-dissociate :
    (assoc_id other : ℕ) (pkt : List ℕ) (addr : Address) (m : SessionMap)
    → other ≢ assoc_id
    → let m' = (send assoc_id pkt addr (success tt) (dissociate assoc_id m)).0 in
      (lookup assoc_id (dissociate assoc_id m) ≡ none)
      × (handed_to assoc_id m' ≡ (pkt, addr) ∷ [])
      × (lookup other m' ≡ lookup other m)
unfolding dissociate
send-dissociate assoc_id other pkt addr m n =
    let gone : lookup assoc_id (remove assoc_id m) ≡ none =
      ground (arith, lookup-remove assoc_id assoc_id m) in
    let (a, b, c) = send_delivers assoc_id other pkt addr (remove assoc_id m) (rw gone tt) n in
    (gone, a ∙ rw gone, c ∙ ground (arith, lookup-remove assoc_id other m))
