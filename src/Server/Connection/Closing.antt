-- ===== src/Server/Connection/Closing.antt =====
-- How a connection of server/src/connection/mod.rs is closed, and with which error codes.
use tuic.Prelude.{
  ℕ, ap, ◌≡◌, refl, arith, Bool, true, false, List, [], ◌∷◌, ◌++◌, none, some, ok, err,
  append_assoc, if◌then◌else◌, ◌∙◌,
}
use native.Mathlib.Nat.{add-zero}
use tuic.Prelude.Table.{lookup, remove, lookup-remove}
use tuic.Protocol.Reader.{IoError}
use tuic.Protocol.Command.{Command, authenticate, read_command}
use tuic.Server.Authenticate.{pending, poll_authenticated}
use tuic.Server.Authenticate.Wakeups.{closed}
use tuic.Server.Task.{Env, locally_closed}
use tuic.Server.Dispatch.{
  Connection, Progress, done, io, close, code_protocol, code_authentication_failed,
  code_authentication_timeout, contains, uni_stream_head, uni_stream_command, bi_stream_head,
  datagram_head, check_digest, authentication_timeout, uni_stream_body, bi_stream_body,
  datagram_body,
}
use tuic.Server.Connection.{
  Task, System, uni_stream_opened, bi_stream_opened, datagram_arrived, finish, start,
  end_connection, handle_authentication_timeout, step, task_polled, poll_waiting, poll_task,
  after_handler, task_body, after_poll,
}
use tuic.Server.Connection.Guarded.{authed}

served : (b : Bool) (s t : System) → b ≡ true → (if b then t else s) ≡ t
served b s t r = ground arith

start_unreadable :
    (env : Env) (make : Command × List ℕ → Task) (e : IoError) (s : System)
    (head : Connection × Progress (Command × List ℕ))
    → s.running ≡ true
    → head ≡ (s.conn, done (err (io e)))
    → (if s.running then start env make head s else s)
      ≡ record s { conn = close code_protocol s.conn }
unfolding start finish
start_unreadable env make e s head r h =
    served s.running s (start env make head s) r
    ∙ ap (λ p. start env make p s) h
    ∙ ap (λ n. record s { conn = close code_protocol s.conn; panics = n }) (add-zero s.panics)

-- A header that cannot be read closes a connection that is served with the protocol error, whether
-- it came on a stream or in a datagram, and nothing else of the connection changes.
pub step-unreadable :
    (env : Env) (bytes : List ℕ) (e : IoError) (s : System)
    → s.running ≡ true
    → read_command bytes ≡ err e
    → let t = record s { conn = close code_protocol s.conn } in
      (step env (uni_stream_opened bytes) s ≡ t)
      × (step env (bi_stream_opened bytes) s ≡ t)
      × (step env (datagram_arrived bytes) s ≡ t)
unfolding step uni_stream_head bi_stream_head datagram_head
step-unreadable env bytes e s r h = (
  start_unreadable env Task.uni_stream e s _ r (rw (h, uni_stream_head)),
  start_unreadable env Task.bi_stream e s _ r (rw (h, bi_stream_head)),
  start_unreadable env Task.datagram e s _ r (rw (h, datagram_head)),
)

-- A digest that is not accepted closes the connection with its code, twice, and wakes the tasks
-- that wait; the authentication stays as it was.
pub step-wrong_digest :
    (env : Env) (bytes digest rest : List ℕ) (s : System)
    → s.running ≡ true
    → read_command bytes ≡ ok (authenticate digest, rest)
    → contains digest s.conn.token ≡ false
    → let c = (step env (uni_stream_opened bytes) s).conn in
      (c.closes ≡ s.conn.closes ++ (code_authentication_failed ∷ code_authentication_failed ∷ []))
      × (c.is_authenticated.broadcast ≡ [])
      × (authed c ≡ authed s.conn)
unfolding step uni_stream_head uni_stream_command start finish check_digest
step-wrong_digest env bytes digest rest s r h n = ground (
  arith,
  append_assoc s.conn.closes (code_authentication_failed ∷ []) (code_authentication_failed ∷ []),
)

-- The waiting tasks when the authentication times out: `wake` comes before the connection counts as
-- closed, so a task that is polled at once waits again, and the end of `handle` leaves its waker in
-- the list although its future is ready by then.
pub handle_authentication_timeout_strands :
    (task : ℕ) (c : Connection)
    → closed c.is_authenticated ≡ false
    → authed c ≡ false
    → let (c', r) = handle_authentication_timeout true c in
      let (a, answer) = poll_authenticated task c'.is_authenticated in
      (r ≡ err locally_closed)
      × (c'.closes ≡ c.closes ++ (code_authentication_timeout ∷ []))
      × (answer ≡ pending)
      × (a.broadcast ≡ task ∷ [])
unfolding handle_authentication_timeout poll_authenticated
handle_authentication_timeout_strands task c h n = ground arith

refused_body :
    (env : Env) (task : Task) (c : Connection)
    → task_body env false task c ≡ (c, err authentication_timeout)
unfolding task_body uni_stream_body bi_stream_body datagram_body
refused_body env (Task.uni_stream read) c = refl
refused_body env (Task.bi_stream read) c = refl
refused_body env (Task.datagram read) c = refl

-- A task that still waits for the authentication when `handle` ends is not woken by the end, whose
-- waker list stays as it was. If it is polled all the same it is over, also on an authenticated
-- connection: the only thing it does is to close the connection with the code of the authentication
-- timeout.
pub step-end_connection :
    (env : Env) (id : ℕ) (task : Task) (s : System)
    → lookup id s.tasks ≡ some task
    → let ended = end_connection s in
      let t = step env (task_polled id) ended in
      (ended.conn.is_authenticated.broadcast ≡ s.conn.is_authenticated.broadcast)
      × (lookup id ended.tasks ≡ some task)
      × (lookup id t.tasks ≡ none)
      × (t.conn ≡ close code_authentication_timeout ended.conn)
      × (t.panics ≡ s.panics)
unfolding step poll_waiting poll_task end_connection after_poll poll_authenticated
step-end_connection env id task s h =
    let ended = end_connection s in
    let rest : System = record ended { tasks = remove id s.tasks } in
    let over = after_handler rest (ended.conn, err authentication_timeout) in
    let polled : step env (task_polled id) ended ≡ over =
      rw (poll_waiting, h) (ap (after_handler rest) (refused_body env task ended.conn)) in
    rw polled (
      refl,
      h,
      ground (arith, lookup-remove id id s.tasks),
      unfold finish in refl,
      add-zero s.panics,
    )
