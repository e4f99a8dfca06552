-- ===== src/Server/Udp/Refinement.antt =====
-- The sessions of server/src/connection/udp.rs against what they promise: a function that says for
-- each number which packets its session was handed.
use tuic.Prelude.{
  ℕ, ◌≡◌, ◌∙◌, ap, sym, refl, arith, ◌==◌, Bool, true, List, [], ◌∷◌, ◌++◌, Option, none, some,
  Answer, success, failure, if◌then◌else◌, Option-cases, Bool-cases, ==_iff, inl, inr, append_assoc,
  append-nil, length, zero, suc,
}
use mathlib.Core.Path.{fun_ext}
use tuic.Prelude.Table.{lookup, insert, lookup-insert, lookup-remove}
use tuic.Protocol.Reader.{IoError}
use tuic.Protocol.Address.{Address}
use tuic.Server.Udp.{UdpSession, SessionMap, push_packet, send, dissociate, send_packet_round}
use tuic.Server.Udp.Sessions.{handed}

abbrev pub Packet : Type 0
Packet = List ℕ × Address

-- What happens to the sessions: a packet comes for one, where a socket can be bound or not; one is
-- dissociated; and the task of one passes a packet to its socket.
pub data Operation : Type 0 where
  packet_came : ℕ → Packet → Answer IoError (Unit {0}) → Operation
  dissociated packet_passed : ℕ → Operation

abbrev pass : ℕ → Option UdpSession → SessionMap → SessionMap
pass assoc_id none m = m
pass assoc_id (some s) m = insert assoc_id (send_packet_round (success tt) s) m

unfoldable pub apply : Operation → SessionMap → SessionMap
unfolding send dissociate send_packet_round
apply (packet_came assoc_id (pkt, addr) bind) m = (send assoc_id pkt addr bind m).0
apply (dissociated assoc_id) m = dissociate assoc_id m
apply (packet_passed assoc_id) m = pass assoc_id (lookup assoc_id m) m

unfoldable pub apply_all : List Operation → SessionMap → SessionMap
unfolding apply
apply_all [] m = m
apply_all (op ∷ ops) m = apply_all ops (apply op m)

-- The sessions that are there, each with the packets that it was handed.
abbrev pub Handed : Type 0
Handed = ℕ → Option (List Packet)

abbrev pub set : ℕ → Option (List Packet) → Handed → Handed
set assoc_id ps h j = if assoc_id == j then ps else h j

abbrev hand : ℕ → Packet → Answer IoError (Unit {0}) → Option (List Packet) → Handed → Handed
hand assoc_id p bind (some ps) h = set assoc_id (some (ps ++ (p ∷ []))) h
hand assoc_id p (success _) none h = set assoc_id (some (p ∷ [])) h
hand assoc_id p (failure e) none h = h

-- What the operations promise: a packet is handed to the session of its number, which is made where
-- there is none and a socket can be bound; a dissociated session is gone; and the work of a
-- session's task is not seen.
abbrev pub promised : Operation → Handed → Handed
promised (packet_came assoc_id p bind) h = hand assoc_id p bind (h assoc_id) h
promised (dissociated assoc_id) h = set assoc_id none h
promised (packet_passed assoc_id) h = h

abbrev pub promised_all : List Operation → Handed → Handed
promised_all [] h = h
promised_all (op ∷ ops) h = promised_all ops (promised op h)

abbrev view_of : Option UdpSession → Option (List Packet)
view_of none = none
view_of (some s) = some (handed s)

abbrev pub view : SessionMap → Handed
view m j = view_of (lookup j m)

abbrev AliveAt : Option UdpSession → Type 0
AliveAt none = Unit {0}
AliveAt (some s) = s.alive ≡ true

-- The tasks of all the sessions run.
abbrev AllAlive : SessionMap → Type 0
AllAlive m = (j : ℕ) → AliveAt (lookup j m)

passed_handed :
    (queue sent : List Packet) (alive : Bool)
    → let s : UdpSession = record { queue = queue; sent = sent; alive = alive } in
      let s' = send_packet_round (success tt) s in (handed s' ≡ handed s) × (s'.alive ≡ alive)
unfolding send_packet_round
passed_handed [] sent alive = (refl, refl)
passed_handed (p ∷ queue) sent alive = (append_assoc sent (p ∷ []) queue, refl)

-- The session of a number changes, and no other.
changed :
    (assoc_id j : ℕ) (s : UdpSession) (ps : List Packet) (m : SessionMap)
    → AllAlive m
    → s.alive ≡ true
    → handed s ≡ ps
    → (view (insert assoc_id s m) j ≡ set assoc_id (some ps) (view m) j)
      × AliveAt (lookup j (insert assoc_id s m))
changed assoc_id j s ps m a alive h = ground (arith, lookup-insert assoc_id j s m, a j)

came-view :
    (assoc_id : ℕ) (pkt : List ℕ) (addr : Address) (bind : Answer IoError (Unit {0}))
    (m : SessionMap) (j : ℕ)
    → AllAlive m
    → let m' = (send assoc_id pkt addr bind m).0 in
      (view m' j ≡ hand assoc_id (pkt, addr) bind (view m assoc_id) (view m) j)
      × AliveAt (lookup j m')
unfolding send
came-view assoc_id pkt addr (success _) m j a = elim (Option-cases (lookup assoc_id m)) [
  | inl e ↦
      rw (e, send)
        (changed assoc_id j (record { queue = (pkt, addr) ∷ []; sent = []; alive = true }) _ m a
          refl refl)
  | inr (s, e) ↦
      let alive : s.alive ≡ true = rw e at (a assoc_id) in
      rw (e, send)
        (changed assoc_id j (push_packet pkt addr s) (handed s ++ ((pkt, addr) ∷ [])) m a
          (ground (arith, alive))
          (ground (arith, alive, append_assoc s.sent s.queue ((pkt, addr) ∷ []))))
]
came-view assoc_id pkt addr (failure x) m j a = elim (Option-cases (lookup assoc_id m)) [
  | inl e ↦ rw (e, send) (refl, a j)
  | inr (s, e) ↦
      let alive : s.alive ≡ true = rw e at (a assoc_id) in
      rw (e, send)
        (changed assoc_id j (push_packet pkt addr s) (handed s ++ ((pkt, addr) ∷ [])) m a
          (ground (arith, alive))
          (ground (arith, alive, append_assoc s.sent s.queue ((pkt, addr) ∷ []))))
]

unchanged :
    (assoc_id j : ℕ) (s : UdpSession) (m : SessionMap)
    → lookup assoc_id m ≡ some s
    → set assoc_id (some (handed s)) (view m) j ≡ view m j
unchanged assoc_id j s m e = elim (Bool-cases (assoc_id == j)) [
  | inl q ↦
      let same : assoc_id ≡ j = (==_iff assoc_id j).0 q in
      rw q (sym (ap view_of (ap (λ k. lookup k m) (sym same) ∙ e)))
  | inr q ↦ rw q refl
]

passed-view :
    (assoc_id : ℕ) (m : SessionMap) (j : ℕ)
    → AllAlive m
    → let m' = pass assoc_id (lookup assoc_id m) m in (view m' j ≡ view m j) × AliveAt (lookup j m')
passed-view assoc_id m j a = elim (Option-cases (lookup assoc_id m)) [
  | inl e ↦ rw e (refl, a j)
  | inr (s, e) ↦
      let alive : s.alive ≡ true = rw e at (a assoc_id) in
      let (h, l) = passed_handed s.queue s.sent s.alive in
      let (v, w) =
        changed assoc_id j (send_packet_round (success tt) s) (handed s) m a (l ∙ alive) h in
      rw e (v ∙ unchanged assoc_id j s m e, w)
]

apply-view :
    (op : Operation) (m : SessionMap) (j : ℕ)
    → AllAlive m
    → (view (apply op m) j ≡ promised op (view m) j) × AliveAt (lookup j (apply op m))
unfolding apply
apply-view (packet_came assoc_id (pkt, addr) bind) m j a = came-view assoc_id pkt addr bind m j a
apply-view (dissociated assoc_id) m j a = ground (arith, lookup-remove assoc_id j m, a j)
apply-view (packet_passed assoc_id) m j a = passed-view assoc_id m j a

apply_all-view :
    (ops : List Operation) (m : SessionMap)
    → AllAlive m
    → view (apply_all ops m) ≡ promised_all ops (view m)
unfolding apply_all
apply_all-view [] m a = refl
apply_all-view (op ∷ ops) m a =
    apply_all-view ops (apply op m) (λ j. (apply-view op m j a).1)
    ∙ ap (promised_all ops) (fun_ext λ j. (apply-view op m j a).0)

-- Whatever happens to the sessions of a new connection, as long as their sockets take what they are
-- given: the sessions that are there, and the packets that each of them was handed, are at every
-- number those that the operations promise.
pub apply_all-promised :
    (ops : List Operation) → view (apply_all ops []) ≡ promised_all ops (λ _. none)
apply_all-promised ops = apply_all-view ops [] (λ j. tt)

-- As many rounds of `listen_send_packet` as there are packets, all of which the socket takes.
abbrev pub rounds : ℕ → UdpSession → UdpSession
rounds zero s = s
rounds (suc n) s = rounds n (send_packet_round (success tt) s)

-- The loop of `listen_send_packet` empties a queue in as many rounds as it has packets, where the
-- socket takes them: they are all sent, in their order, behind what was sent before.
pub rounds-length :
    (queue sent : List Packet) (alive : Bool)
    → rounds (length queue) (record { queue = queue; sent = sent; alive = alive })
      ≡ record { queue = []; sent = sent ++ queue; alive = alive }
unfolding send_packet_round
rounds-length [] sent alive =
    ap (λ (ps : List Packet). record { queue = []; sent = ps; alive = alive })
      (sym (append-nil sent))
rounds-length (p ∷ queue) sent alive =
    rounds-length queue (sent ++ (p ∷ [])) alive
    ∙ ap (λ (ps : List Packet). record { queue = []; sent = ps; alive = alive })
        (append_assoc sent (p ∷ []) queue)
