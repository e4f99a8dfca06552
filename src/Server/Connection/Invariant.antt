-- ===== src/Server/Connection/Invariant.antt =====
-- What holds of a connection of server/src/connection/mod.rs after any run of events.
use tuic.Prelude.{
  ℕ, ◌∙◌, sym, ap, ◌≡◌, ◌≢◌, refl, arith, Bool, true, false, List, [], ◌∷◌, none, All,
  if◌then◌else◌, inl, inr, Option-cases,
}
use tuic.Prelude.Table.{lookup}
use tuic.Protocol.Address.{SocketAddr, Address}
use tuic.Server.Authenticate.{IsAuthenticated, Poll, ready, pending, poll_authenticated}
use tuic.Server.Task.{Env}
use tuic.Server.Dispatch.{
  uni_stream_head, bi_stream_head, datagram_head, process_received_udp_packet,
}
use tuic.Server.Connection.{
  Task, System, Event, uni_stream_opened, bi_stream_opened, datagram_arrived, udp_packet_arrived,
  udp_packet_taken, task_polled, authentication_polled, authentication_timer_fired, stream_ended,
  new_system, after_watch, end_connection, timeout_branch, poll_watch, socket_received,
  take_received, poll_waiting, step, run,
}
use tuic.Server.Connection.Handlers.{
  process_received_udp_packet-ne-panicked, process_received_udp_packet-mode,
  uni_stream_head-Started, bi_stream_head-Started, datagram_head-Started, uni_stream_head-mode,
  bi_stream_head_same, datagram_head_same,
}
use tuic.Server.Connection.Guarded.{authed, process_received_udp_packet-IsGuarded}
use tuic.Server.Connection.Tasks.{
  Inv, IsEvent, AllReady-lookup, after_handler-Inv, poll_answers, with_auth-Inv, poll_task-Inv,
  start-Inv,
}

end_connection-Inv : (s : System) → Inv s → Inv (end_connection s)
unfolding end_connection
end_connection-Inv s v = ground arith

timeout_branch-Inv : (b : Bool) (s : System) → Inv s → Inv (timeout_branch b s)
unfolding timeout_branch
timeout_branch-Inv false s v = ground arith
timeout_branch-Inv true s v = unfold end_connection in ground arith

after_watch-Inv :
    (auth : IsAuthenticated) (answer : Poll Bool) (s : System)
    → auth.is_authenticated ≡ authed s.conn
    → Inv s
    → Inv (after_watch (auth, answer) s)
unfolding after_watch
after_watch-Inv auth (ready b) s e v = timeout_branch-Inv false _ (with_auth-Inv auth s e v)
after_watch-Inv auth pending s e v = with_auth-Inv auth s e v

poll_watch-Inv : (s : System) → Inv s → Inv (poll_watch s)
unfolding poll_watch
poll_watch-Inv s v =
    let p = poll_authenticated 0 s.conn.is_authenticated in
    after_watch-Inv p.0 p.1 s (poll_answers 0 s.conn.is_authenticated).0 v

choice-Inv : (b : Bool) (s t : System) → Inv s → Inv t → Inv (if b then t else s)
choice-Inv true s t v w = w
choice-Inv false s t v w = v

socket_received-Inv :
    (id : ℕ) (pkt : List ℕ) (from : SocketAddr) (s : System)
    → Inv s
    → Inv (socket_received id pkt from s)
unfolding socket_received
socket_received-Inv id pkt from s v = elim (Option-cases (lookup id s.conn.udp_sessions)) [
  | inl e ↦ simp (e, socket_received) v
  | inr (session, e) ↦
      let moded : s.conn.udp_packet_from ≢ none =
        λ n. cc (ap (lookup id) (v.guarded.no_session n)) in
      simp (e, socket_received)
        (choice-Inv session.alive s _ v (record {
          guarded = v.guarded;
          ready = v.ready;
          fed = λ n. absurd (moded n);
          calm = v.calm;
        }))
]

take_received-Inv :
    (env : Env) (packets : List (ℕ × List ℕ × Address)) (s : System)
    → s.received ≡ packets
    → Inv s
    → Inv (take_received env packets s)
unfolding take_received
take_received-Inv env [] s e v = v
take_received-Inv env ((id, pkt, addr) ∷ rest) s e v =
    let moded : s.conn.udp_packet_from ≢ none = λ n. cc (v.fed n) in
    let p = process_received_udp_packet env id pkt addr s.conn in
    after_handler-Inv (record s { received = rest }) p.0 p.1
      (process_received_udp_packet-IsGuarded env id pkt addr s.conn v.guarded) v.ready
      (λ n. absurd (moded (sym (process_received_udp_packet-mode env id pkt addr s.conn) ∙ n)))
      v.calm (process_received_udp_packet-ne-panicked env id pkt addr s.conn moded)

poll_waiting-Inv : (env : Env) (id : ℕ) (s : System) → Inv s → Inv (poll_waiting env id s)
unfolding poll_waiting
poll_waiting-Inv env id s v = elim (Option-cases (lookup id s.tasks)) [
  | inl e ↦ simp (e, poll_waiting) v
  | inr (task, e) ↦
      simp (e, poll_waiting)
        (poll_task-Inv env id task s (AllReady-lookup id task s.tasks v.ready e) v)
]

-- Every event keeps the invariant.
pub step-Inv : (env : Env) (e : Event) (s : System) → IsEvent e → Inv s → Inv (step env e s)
unfolding step
step-Inv env (uni_stream_opened bytes) s h v =
    let p = uni_stream_head bytes s.conn in
    choice-Inv s.running s _ v (
      start-Inv env Task.uni_stream p.0 p.1 s (uni_stream_head-Started bytes s.conn v.guarded)
        (λ n. sym (uni_stream_head-mode bytes s.conn) ∙ n) v)
step-Inv env (bi_stream_opened bytes) s h v =
    let p = bi_stream_head bytes s.conn in
    choice-Inv s.running s _ v (
      start-Inv env Task.bi_stream p.0 p.1 s (bi_stream_head-Started bytes s.conn v.guarded)
        (λ n. rw (bi_stream_head_same bytes s.conn) at n) v)
step-Inv env (datagram_arrived bytes) s h v =
    let p = datagram_head bytes s.conn in
    choice-Inv s.running s _ v (
      start-Inv env Task.datagram p.0 p.1 s (datagram_head-Started bytes s.conn h v.guarded)
        (λ n. rw (datagram_head_same bytes s.conn) at n) v)
step-Inv env (udp_packet_arrived id pkt from) s h v = socket_received-Inv id pkt from s v
step-Inv env udp_packet_taken s h v =
    choice-Inv s.running s _ v (take_received-Inv env s.received s refl v)
step-Inv env (task_polled id) s h v = poll_waiting-Inv env id s v
step-Inv env authentication_polled s h v =
    choice-Inv s.running s _ v (choice-Inv s.watching s _ v (poll_watch-Inv s v))
step-Inv env authentication_timer_fired s h v =
    choice-Inv s.running s _ v (choice-Inv s.watching s _ v (timeout_branch-Inv true s v))
step-Inv env stream_ended s h v = choice-Inv s.running s _ v (end_connection-Inv s v)

abbrev pub AreEvents : List (Env × Event) → Type 0
AreEvents = All (λ e. IsEvent e.1)

run-Inv : (es : List (Env × Event)) (s : System) → AreEvents es → Inv s → Inv (run es s)
unfolding run
run-Inv [] s h v = v
run-Inv ((env, e) ∷ es) s h v = run-Inv es (step env e s) h.1 (step-Inv env e s h.0 v)

new_system-Inv : (token : List (List ℕ)) (max : ℕ) → Inv (new_system token max)
unfolding new_system
new_system-Inv token max = ground arith

-- On a new connection, after any events in any order, whose datagrams are bytes: no task has
-- panicked, every waiting task has read what it needs, packets come back only once there is a relay
-- mode, and before the authentication the connection has no mode, no session, no answered `Connect`
-- and has sent nothing.
pub run-new_system-Inv :
    (token : List (List ℕ)) (max : ℕ) (es : List (Env × Event))
    → AreEvents es
    → Inv (run es (new_system token max))
run-new_system-Inv token max es h = run-Inv es _ h (new_system-Inv token max)
