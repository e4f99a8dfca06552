-- ===== src/EndToEnd/Delivery.antt =====
-- The UDP packets of client/src/relay on their way into the sessions of server/src/connection, over
-- a connection that loses none of them and keeps their order.
use tuic.Prelude.{
  ℕ, ◌+◌, ◌≡◌, ◌≢◌, ◌⊎◌, ◌∙◌, sym, ap, subst, inl, inr, arith, true, false, List, [], ◌∷◌, ◌++◌,
  map, none, some, ok, success, All, append_assoc, append-nil,
}
use tuic.Prelude.Table.{lookup, remove}
use tuic.Protocol.Address as Tuic
use tuic.Protocol.Command.{Command}
use tuic.Client.Address.{Address, to_tuic}
use tuic.Client.Connection.{UdpRelayMode, native, quic, Wire}
use tuic.Client.Connection as Client
use tuic.Client.Request.Associate.{packet_on, packets_on}
use tuic.Server.Udp.{UdpPacketSource, SessionMap, uni_stream, datagram, send}
use tuic.Server.Udp.Sessions.{handed_to, Alive, send_delivers, send-Alive}
use tuic.Server.Authenticate.{IsAuthenticated, ready, poll_authenticated}
use tuic.Server.Task.{Env}
use tuic.Server.Dispatch.{Connection, Outcome, waiting, uni_stream_body, datagram_body}
use tuic.Server.Connection.{
  System, Event, Task, datagram_arrived, uni_stream_opened, task_body, finish, poll_task,
  after_poll, after_handler, while_running, start, step, run,
}
use tuic.Server.Connection.Guarded.{authed}
use tuic.EndToEnd.{IsPacket, datagram_relay-frame, uni_stream_relay-frame}

-- What the server makes of what a client put on the wire.
abbrev pub arrival : Wire → Event
arrival (Client.uni_stream bytes) = uni_stream_opened bytes
arrival (Client.datagram bytes) = datagram_arrived bytes

abbrev pub arrivals : Env → List Wire → List (Env × Event)
arrivals env [] = []
arrivals env (w ∷ ws) = (env, arrival w) ∷ arrivals env ws

-- The relay mode of the server that goes with the one of the client.
abbrev pub source_of : UdpRelayMode → UdpPacketSource
source_of native = datagram
source_of quic = uni_stream

-- A connection that is served and authenticated, with no relay mode yet or that of the client.
abbrev pub IsServing : UdpRelayMode → System → Type 0
IsServing mode s =
    (s.running ≡ true)
    × (authed s.conn ≡ true)
    × (s.conn.is_authenticated.is_connection_closed.is_closed ≡ false)
    × ((s.conn.udp_packet_from ≡ none) ⊎ (s.conn.udp_packet_from ≡ some (source_of mode)))

polled_true :
    (task : ℕ) (auth : IsAuthenticated)
    → auth.is_authenticated ≡ true
    → auth.is_connection_closed.is_closed ≡ false
    → poll_authenticated task auth ≡ (auth, ready true)
unfolding poll_authenticated
polled_true task auth a c = ground arith

-- A handler of an authenticated connection does not wait.
pub start_served :
    (env : Env) (make : Command × List ℕ → Task) (read : Command × List ℕ) (s : System)
    (after : Connection)
    → authed s.conn ≡ true
    → s.conn.is_authenticated.is_connection_closed.is_closed ≡ false
    → task_body env true (make read) s.conn ≡ (after, ok tt)
    → ((start env make (s.conn, waiting read) s).conn ≡ after)
      × ((start env make (s.conn, waiting read) s).running ≡ s.running)
unfolding start poll_task after_poll poll_authenticated finish
start_served env make read s after a c b =
    let polled = polled_true s.next_task s.conn.is_authenticated a c in
    let waiting_system : System = record s { next_task = s.next_task + 1 } in
    let rest : System = record waiting_system { tasks = remove s.next_task s.tasks } in
    let whole : start env make (s.conn, waiting read) s ≡ after_handler rest (after, ok tt) =
      ap (λ p. after_poll env s.next_task (make read) p waiting_system) polled
      ∙ ap (after_handler rest) b in
    (ap (λ (t : System). t.conn) whole, ap (λ (t : System). t.running) whole)

-- The connection of a server that has taken a packet.
abbrev pub Took : Env → UdpRelayMode → ℕ → List ℕ × Address → System → System → Type 0
Took env mode assoc_id (pkt, addr) s s' =
    (s'.conn ≡ record s.conn {
      udp_packet_from = some (source_of mode);
      udp_sessions = (send assoc_id pkt (to_tuic addr) env.bind s.conn.udp_sessions).0;
    })
    × (s'.running ≡ true)

not_other :
    (mode : UdpRelayMode) (s : System) (other : UdpPacketSource)
    → IsServing mode s
    → source_of mode ≢ other
    → s.conn.udp_packet_from ≢ some other
not_other mode s other (_, _, _, inl n) d e = cc
not_other mode s other (_, _, _, inr m) d e = d (cc)

datagram-ne-uni_stream : ◌≢◌ {A = UdpPacketSource} datagram uni_stream
datagram-ne-uni_stream h = cc

uni_stream-ne-datagram : ◌≢◌ {A = UdpPacketSource} uni_stream datagram
uni_stream-ne-datagram h = cc

pair_≡ : (p : Connection × Outcome) (c : Connection) (o : Outcome) → p.0 ≡ c → p.1 ≡ o → p ≡ (c, o)
pair_≡ p c o x y = cc

pub while_served : (s t : System) → s.running ≡ true → while_running s t ≡ t
while_served s t r = ground arith

step-Took :
    (env : Env) (mode : UdpRelayMode) (assoc_id : ℕ) (pkt : List ℕ) (addr : Address) (s : System)
    → IsServing mode s
    → IsPacket assoc_id pkt (to_tuic addr)
    → Took env mode assoc_id
        (pkt, addr)
        s
        (step env (arrival (packet_on mode assoc_id (pkt, addr))) s)
unfolding step task_body datagram_body uni_stream_body
step-Took env native assoc_id pkt addr s serving fits =
    let (r, a, c, m) = serving in
    let (head, (taken, fine)) =
      datagram_relay-frame env assoc_id pkt addr s.conn fits
        (not_other native s uni_stream serving datagram-ne-uni_stream) in
    let (conn, running) = start_served env Task.datagram _ s _ a c (pair_≡ _ _ _ taken fine) in
    let stepped : step env (arrival (packet_on native assoc_id (pkt, addr))) s
        ≡ start env Task.datagram _ s =
      while_served s _ r ∙ ap (λ h. start env Task.datagram h s) head in
    subst (Took env native assoc_id (pkt, addr) s) (sym stepped) (conn, running ∙ r)
step-Took env quic assoc_id pkt addr s serving fits =
    let (r, a, c, m) = serving in
    let (head, (taken, fine)) =
      uni_stream_relay-frame env assoc_id pkt addr s.conn fits
        (not_other quic s datagram serving uni_stream-ne-datagram) in
    let (conn, running) = start_served env Task.uni_stream _ s _ a c (pair_≡ _ _ _ taken fine) in
    let stepped : step env (arrival (packet_on quic assoc_id (pkt, addr))) s
        ≡ start env Task.uni_stream _ s =
      while_served s _ r ∙ ap (λ h. start env Task.uni_stream h s) head in
    subst (Took env quic assoc_id (pkt, addr) s) (sym stepped) (conn, running ∙ r)

suc-ne_self : (n : ℕ) → n + 1 ≢ n
suc-ne_self n h = omega arith

send_appends :
    (assoc_id : ℕ) (pkt : List ℕ) (addr : Tuic.Address) (m : SessionMap)
    → Alive (lookup assoc_id m)
    → handed_to assoc_id (send assoc_id pkt addr (success tt) m).0
      ≡ handed_to assoc_id m ++ ((pkt, addr) ∷ [])
send_appends assoc_id pkt addr m h =
    (send_delivers assoc_id (assoc_id + 1) pkt addr m h (suc-ne_self assoc_id)).0

-- A packet as the server names its target.
abbrev pub to_server : List ℕ × Address → List ℕ × Tuic.Address
to_server (pkt, addr) = (pkt, to_tuic addr)

-- The packets fit into `Packet` commands.
abbrev pub AllFit : ℕ → List (List ℕ × Address) → Type 0
AllFit assoc_id ps = All (λ (p : List ℕ × Address). IsPacket assoc_id p.0 (to_tuic p.1)) ps

Took-IsServing :
    (env : Env) (mode : UdpRelayMode) (assoc_id : ℕ) (p : List ℕ × Address) (s s' : System)
    → Took env mode assoc_id p s s'
    → IsServing mode s
    → IsServing mode s'
Took-IsServing env mode assoc_id p s s' (t, r) (_, a, c, _) = (
  r,
  ap authed t ∙ a,
  ap (λ (c : Connection). c.is_authenticated.is_connection_closed.is_closed) t ∙ c,
  inr (ap (λ (c : Connection). c.udp_packet_from) t),
)

-- Where a socket can be bound for it, the packets of a session that the client puts on the wire, taken
-- by a server that serves the connection, are handed to the session of this number in their order.
pub run-packets_on :
    (env : Env) (mode : UdpRelayMode) (assoc_id : ℕ) (ps : List (List ℕ × Address)) (s : System)
    → env.bind ≡ success tt
    → IsServing mode s
    → Alive (lookup assoc_id s.conn.udp_sessions)
    → AllFit assoc_id ps
    → let s' = run (arrivals env (packets_on mode assoc_id ps)) s in
      (handed_to assoc_id s'.conn.udp_sessions
        ≡ handed_to assoc_id s.conn.udp_sessions ++ map to_server ps)
      × IsServing mode s'
unfolding run
run-packets_on env mode assoc_id [] s b serving alive fits = (sym (append-nil _), serving)
run-packets_on env mode assoc_id (p ∷ ps) s b serving alive (fit, fits) =
    let took = step-Took env mode assoc_id p.0 p.1 s serving fit in
    let s' = step env (arrival (packet_on mode assoc_id p)) s in
    let m = s.conn.udp_sessions in
    let sessions : s'.conn.udp_sessions ≡ (send assoc_id p.0 (to_tuic p.1) (success tt) m).0 =
      ap (λ (c : Connection). c.udp_sessions) took.0
      ∙ ap (λ bind. (send assoc_id p.0 (to_tuic p.1) bind m).0) b in
    let alive' =
      subst (λ m'. Alive (lookup assoc_id m')) (sym sessions)
        (send-Alive assoc_id p.0 (to_tuic p.1) m alive) in
    let (rest, serving') =
      run-packets_on env mode assoc_id ps s' b
        (Took-IsServing env mode assoc_id p s s' took serving) alive' fits in
    let delivered = send_appends assoc_id p.0 (to_tuic p.1) m alive in
    (
      rest
          ∙ (ap (λ hs. hs ++ map to_server ps) (ap (handed_to assoc_id) sessions ∙ delivered)
              ∙ append_assoc (handed_to assoc_id m) (to_server p ∷ []) (map to_server ps)),
      serving',
    )
