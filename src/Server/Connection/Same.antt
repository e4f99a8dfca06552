-- ===== src/Server/Connection/Same.antt =====
-- The handlers and the waits of server/src/connection keep the accepted tokens and the
-- authentication of a connection.
use tuic.Prelude.{
  ℕ, ◌+◌, ◌≡◌, ◌∙◌, refl, subst, arith, Bool, true, false, List, [], ◌∷◌, ok, err, panicked, inl,
  inr, Option-cases,
}
use tuic.Prelude.Table.{lookup}
use tuic.Protocol.Command.{Command, response, connect, packet}
use tuic.Protocol.Address.{Address}
use tuic.Server.Authenticate.{IsAuthenticated, Poll, ready, pending, poll_authenticated}
use tuic.Server.Task.{Env}
use tuic.Server.Task as Relay
use tuic.Server.Dispatch.{
  Connection, Outcome, Progress, done, waiting, uni_stream_body, uni_stream_relay, bi_stream_body,
  bi_stream_relay, datagram_body, datagram_relay, process_received_udp_packet,
}
use tuic.Server.Connection.{
  Task, System, finish, task_body, with_auth, after_poll, after_watch, poll_task, start,
  end_connection, timeout_branch, take_received, poll_waiting,
}
use tuic.Server.Connection.Guarded.{authed}
use tuic.Server.Connection.Tasks.{poll_answers}

-- `c'` accepts the same tokens as `c`, and is authenticated if and only if `c` is.
abbrev pub Same : Connection → Connection → Type 0
Same c c' = (authed c' ≡ authed c) × (c'.token ≡ c.token)

uni_stream_relay-Same :
    (env : Env) (cmd : Command) (r : List ℕ) (c : Connection)
    → Same c (uni_stream_relay env (cmd, r) c).0
unfolding uni_stream_relay Relay.dissociate
uni_stream_relay-Same env (response b) r c = (refl, refl)
uni_stream_relay-Same env (packet assoc_id len addr) r c = ground arith
uni_stream_relay-Same env _ r c = (refl, refl)

bi_stream_relay-Same :
    (env : Env) (cmd : Command) (r : List ℕ) (c : Connection)
    → Same c (bi_stream_relay env (cmd, r) c).0
unfolding bi_stream_relay
bi_stream_relay-Same env (connect addr) r c = ground arith
bi_stream_relay-Same env _ r c = (refl, refl)

datagram_relay-Same :
    (env : Env) (cmd : Command) (r : List ℕ) (c : Connection)
    → Same c (datagram_relay env (cmd, r) c).0
unfolding datagram_relay
datagram_relay-Same env (packet assoc_id len addr) r c = ground arith
datagram_relay-Same env _ r c = (refl, refl)

task_body-Same : (env : Env) (b : Bool) (t : Task) (c : Connection) → Same c (task_body env b t c).0
unfolding task_body uni_stream_body bi_stream_body datagram_body
task_body-Same env true (Task.uni_stream (cmd, r)) c = uni_stream_relay-Same env cmd r c
task_body-Same env true (Task.bi_stream (cmd, r)) c = bi_stream_relay-Same env cmd r c
task_body-Same env true (Task.datagram (cmd, r)) c = datagram_relay-Same env cmd r c
task_body-Same env false (Task.uni_stream read) c = (refl, refl)
task_body-Same env false (Task.bi_stream read) c = (refl, refl)
task_body-Same env false (Task.datagram read) c = (refl, refl)

finish-Same : (o : Outcome) (c : Connection) → Same c (finish o c)
unfolding finish
finish-Same (ok _) c = (refl, refl)
finish-Same (err e) c = (refl, refl)
finish-Same panicked c = (refl, refl)

Same-trans : (c d e : Connection) → Same c d → Same d e → Same c e
Same-trans c d e p q = (q.0 ∙ p.0, q.1 ∙ p.1)

after_poll-Same :
    (env : Env) (id : ℕ) (task : Task) (auth : IsAuthenticated) (answer : Poll Bool) (s : System)
    → auth.is_authenticated ≡ authed s.conn
    → Same s.conn (after_poll env id task (auth, answer) s).conn
unfolding after_poll
after_poll-Same env id task auth (ready b) s e =
    let c = (with_auth auth s).conn in
    let body = task_body env b task c in
    let (ha, ht) =
      Same-trans c body.0 (finish body.1 body.0) (task_body-Same env b task c)
        (finish-Same body.1 body.0) in
    (ha ∙ e, ht)
after_poll-Same env id task auth pending s e = (e, refl)

poll_task-Same :
    (env : Env) (id : ℕ) (task : Task) (s : System) → Same s.conn (poll_task env id task s).conn
unfolding poll_task
poll_task-Same env id task s =
    let p = poll_authenticated id s.conn.is_authenticated in
    after_poll-Same env id task p.0 p.1 s (poll_answers id s.conn.is_authenticated).0

pub start-Same :
    (env : Env) (make : Command × List ℕ → Task) (c : Connection) (p : Progress (Command × List ℕ))
    (s : System)
    → Same c (start env make (c, p) s).conn
unfolding start
start-Same env make c (done o) s = finish-Same o c
start-Same env make c (waiting read) s =
    poll_task-Same env s.next_task (make read) (record s { conn = c; next_task = s.next_task + 1 })

pub timeout_branch-Same : (b : Bool) (s : System) → Same s.conn (timeout_branch b s).conn
unfolding timeout_branch
timeout_branch-Same false s = (refl, refl)
timeout_branch-Same true s = unfold end_connection in (refl, refl)

pub after_watch-Same :
    (auth : IsAuthenticated) (answer : Poll Bool) (s : System)
    → auth.is_authenticated ≡ authed s.conn
    → Same s.conn (after_watch (auth, answer) s).conn
unfolding after_watch
after_watch-Same auth (ready b) s e =
    let (p, q) = timeout_branch-Same false (with_auth auth s) in (p ∙ e, q)
after_watch-Same auth pending s e = (e, refl)

pub take_received-Same :
    (env : Env) (packets : List (ℕ × List ℕ × Address)) (s : System)
    → Same s.conn (take_received env packets s).conn
unfolding take_received
take_received-Same env [] s = (refl, refl)
take_received-Same env ((id, pkt, addr) ∷ rest) s =
    let p = process_received_udp_packet env id pkt addr s.conn in
    Same-trans s.conn p.0 (finish p.1 p.0) (unfold process_received_udp_packet in ground arith)
      (finish-Same p.1 p.0)

pub poll_waiting-Same : (env : Env) (id : ℕ) (s : System) → Same s.conn (poll_waiting env id s).conn
unfolding poll_waiting
poll_waiting-Same env id s = elim (Option-cases (lookup id s.tasks)) [
  | inl e ↦ simp (e, poll_waiting) (refl, refl)
  | inr (task, e) ↦ simp (e, poll_waiting) (poll_task-Same env id task s)
]

pub started-Same :
    (env : Env) (make : Command × List ℕ → Task) (c : Connection)
    (p : Connection × Progress (Command × List ℕ)) (s : System)
    → p.0 ≡ c
    → Same c (start env make p s).conn
started-Same env make c p s e =
    subst (λ d. Same d (start env make p s).conn) e (start-Same env make p.0 p.1 s)
