-- ===== src/Client/Socks5/Forwarding.antt =====
-- What the loops of client/src/socks5/associate.rs forward.
use tuic.Prelude.{
  ℕ, ◌≡◌, ◌⊎◌, inl, inr, ◌∙◌, sym, ap, refl, true, false, ◌==◌, List, [], ◌∷◌, ◌++◌, map, Option,
  none, some, Answer, success, failure, All, Bool-cases, Answer-cases, append_assoc, append-nil,
  if◌then◌else◌,
}
use tuic.Protocol.Reader.{IoError}
use tuic.Protocol.Address.{SocketAddr}
use tuic.Client.Address as Relay
use tuic.Client.Socks5.{Address, to_relay, of_relay}
use tuic.Client.Socks5.Associate.{
  Round, Session, new_session, set_max_packet_size, hand, next_packets, first_packet,
  socks5_to_relay, relay_to_socks5,
}

abbrev pub Received : Type 0
Received = List ℕ × ℕ × Address × SocketAddr

-- The packets that arrive before the socket fails, less the fragments.
unfoldable pub unfragmented : List Round → List Received
unfragmented [] = []
unfragmented (r ∷ rs) =
    let rest = unfragmented rs in
    elim r.received [
      | failure e ↦ []
      | success (pkt, frag, dst, src) ↦ if frag == 0 then (pkt, frag, dst, src) ∷ rest else rest
    ]

-- The error by which the socket fails first.
unfoldable pub failed : List Round → Option IoError
failed [] = none
failed (r ∷ rs) = let rest = failed rs in elim r.received [ failure e ↦ some e | success _ ↦ rest ]

-- A packet for the relay.
abbrev pub for_relay : Received → List ℕ × Relay.Address
for_relay (pkt, frag, dst, src) = (pkt, to_relay dst)

-- The sender of the first packet.
abbrev pub sender : List Received → Option SocketAddr
sender [] = none
sender ((pkt, frag, dst, src) ∷ ps) = some src

-- The calls of `connect` succeed.
abbrev pub AllConnect : List Round → Type 0
AllConnect rounds = All (λ (r : Round). r.connected ≡ success tt) rounds

-- What comes in a round: an error, a whole packet, or a fragment.
received_cases :
    (r : Round)
    → ((e : IoError) × (r.received ≡ failure e))
      ⊎ (((p : Received) × (r.received ≡ success p) × ((p.1 == 0) ≡ true))
          ⊎ ((p : Received) × (r.received ≡ success p) × ((p.1 == 0) ≡ false)))
received_cases r = elim (Answer-cases r.received) [
  | inl (p, h) ↦ elim (Bool-cases (p.1 == 0)) [
    | inl z ↦ inr (inl (p, h, z))
    | inr z ↦ inr (inr (p, h, z))
  ]
  | inr (e, h) ↦ inl (e, h)
]

next_packets-unfragmented :
    (header : ℕ) (rounds : List Round) (s : Session)
    → let (s', e) = next_packets header rounds s in
      (s'.handed ≡ s.handed ++ map for_relay (unfragmented rounds))
      × (s'.peer ≡ s.peer)
      × (e ≡ failed rounds)
unfolding next_packets unfragmented failed
next_packets-unfragmented header [] s = (sym (append-nil s.handed), refl, refl)
next_packets-unfragmented header (r ∷ rs) s = elim (received_cases r) [
  | inl (e, h) ↦ rw (h, next_packets, unfragmented, failed) (sym (append-nil s.handed), refl, refl)
  | inr (inl (p, h, z)) ↦
      let sized = set_max_packet_size header r s in
      let (w, q, f) = next_packets-unfragmented header rs (hand p.0 p.2 sized) in
      let assoc = append_assoc s.handed (for_relay p ∷ []) (map for_relay (unfragmented rs)) in
      rw (h, z, next_packets, unfragmented, failed) (w ∙ assoc, q, f)
  | inr (inr (p, h, z)) ↦
      rw (h, z, next_packets, unfragmented, failed)
        (next_packets-unfragmented header rs (set_max_packet_size header r s))
]

first_packet-unfragmented :
    (header : ℕ) (rounds : List Round) (s : Session)
    → AllConnect rounds
    → s.peer ≡ none
    → let (s', e) = first_packet header rounds s in
      (s'.handed ≡ s.handed ++ map for_relay (unfragmented rounds))
      × (s'.peer ≡ sender (unfragmented rounds))
      × (e ≡ failed rounds)
unfolding first_packet unfragmented failed
first_packet-unfragmented header [] s c n = (sym (append-nil s.handed), n, refl)
first_packet-unfragmented header (r ∷ rs) s (c, cs) n = elim (received_cases r) [
  | inl (e, h) ↦ rw (h, first_packet, unfragmented, failed) (sym (append-nil s.handed), n, refl)
  | inr (inl (p, h, z)) ↦
      let handed = hand p.0 p.2 (set_max_packet_size header r s) in
      let (w, q, f) = next_packets-unfragmented header rs (record handed { peer = some p.3 }) in
      let assoc = append_assoc s.handed (for_relay p ∷ []) (map for_relay (unfragmented rs)) in
      rw (h, z, c, first_packet, unfragmented, failed) (w ∙ assoc, q, f)
  | inr (inr (p, h, z)) ↦
      rw (h, z, first_packet, unfragmented, failed)
        (first_packet-unfragmented header rs (set_max_packet_size header r s) cs n)
]

-- In a build without overflow checks and where the socket of a session can be connected, its two
-- loops together are one filter: the relay is handed the packets that arrive before the socket fails,
-- less the fragments, in their order; the socket is connected to the sender of the first of them; and
-- the loops end only by the error of the socket.
pub socks5_to_relay-unfragmented :
    (header size : ℕ) (rounds : List Round)
    → AllConnect rounds
    → let (s, e) = socks5_to_relay header size rounds in
      (s.handed ≡ map for_relay (unfragmented rounds))
      × (s.peer ≡ sender (unfragmented rounds))
      × (e ≡ failed rounds)
unfolding socks5_to_relay
socks5_to_relay-unfragmented header size rounds c =
    first_packet-unfragmented header rounds (new_session header size) c refl

-- A packet for the socks5 client, which is never a fragment.
abbrev pub for_socks5 : List ℕ × Relay.Address → List ℕ × ℕ × Address
for_socks5 (pkt, src) = (pkt, 0, of_relay src)

-- The packets before the first that cannot be sent.
abbrev pub sendable :
    List ((List ℕ × Relay.Address) × Answer IoError (Unit {0})) → List (List ℕ × Relay.Address)
sendable [] = []
sendable ((p, success _) ∷ ps) = p ∷ sendable ps
sendable ((p, failure e) ∷ ps) = []

-- What the relay gives goes to the socks5 client unfragmented and in order, up to the first packet
-- that cannot be sent.
pub relay_to_socks5-sendable :
    (packets : List ((List ℕ × Relay.Address) × Answer IoError (Unit {0})))
    → (relay_to_socks5 packets).0 ≡ map for_socks5 (sendable packets)
unfolding relay_to_socks5
relay_to_socks5-sendable [] = refl
relay_to_socks5-sendable (((pkt, src), success _) ∷ ps) =
    ap (◌∷◌ (for_socks5 (pkt, src))) (relay_to_socks5-sendable ps)
relay_to_socks5-sendable ((p, failure e) ∷ ps) = refl
