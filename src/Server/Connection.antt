-- ===== src/Server/Connection.antt =====
-- server/src/connection/mod.rs: one connection with the tasks it spawns. The tasks run in any order
-- that the scheduler chooses, so a run is a list of events; between two waits a task is not
-- interrupted. `run` plays the loops, the `select!` of `handle` and the spawned tasks.
pub mod Guarded
pub mod Handlers
pub mod Tasks
pub mod Invariant
pub mod Same
pub mod Authentication
pub mod Closing
use tuic.Prelude.{
  ℕ, ◌+◌, Bool, true, false, List, [], ◌∷◌, ◌++◌, none, some, Result, ok, err, panicked,
  if◌then◌else◌,
}
use tuic.Prelude.Table.{lookup, insert, remove}
use tuic.Protocol.Address.{SocketAddr, Address}
use tuic.Protocol.Command.{Command}
use tuic.Server.Udp.{receive_packet}
use tuic.Server.Authenticate.{
  IsAuthenticated, Poll, ready, pending, new_is_closed, set_closed, new_is_authenticated, wake,
  poll_authenticated,
}
use tuic.Server.Task.{Env, ConnectionError, locally_closed}
use tuic.Server.Dispatch.{
  Connection, Outcome, Progress, done, waiting, authentication_timeout, as_error_code, close,
  uni_stream_head, uni_stream_body, bi_stream_head, bi_stream_body, datagram_head, datagram_body,
  process_received_udp_packet,
}

-- A spawned task that waits for the authentication, with what it has read.
pub data Task : Type 0 where
  uni_stream : Command × List ℕ → Task
  bi_stream : Command × List ℕ → Task
  datagram : Command × List ℕ → Task

-- `tasks` are the waiting tasks by number, `received` the channel from the UDP sessions. `running`
-- says that the `select!` of `handle` is not over, `watching` that its branch for the
-- authentication timeout is still enabled, and `panics` counts the tasks that panicked.
pub record System : Type 0 where
  pub conn : Connection
  pub tasks : List (ℕ × Task)
  pub next_task : ℕ
  pub received : List (ℕ × List ℕ × Address)
  pub max_pkt_size : ℕ
  pub running : Bool
  pub watching : Bool
  pub panics : ℕ

-- `handle`, once the handshake is over. Task 0 is `handle` itself.
unfoldable pub new_system : List (List ℕ) → ℕ → System
unfolding new_is_closed new_is_authenticated
new_system token max_pkt_size = record {
  conn = record {
    closes = [];
    sent = [];
    relays = [];
    udp_packet_from = none;
    udp_sessions = [];
    token = token;
    is_authenticated = new_is_authenticated new_is_closed;
  };
  tasks = [];
  next_task = 1;
  received = [];
  max_pkt_size = max_pkt_size;
  running = true;
  watching = true;
  panics = 0;
}

-- What the closures of the `listen_…` loops do with a handler's result.
unfoldable pub finish : Outcome → Connection → Connection
unfolding close as_error_code
finish (ok _) conn = conn
finish (err e) conn = close (as_error_code e) conn
finish panicked conn = conn

abbrev pub panic_count : Outcome → ℕ
panic_count (ok _) = 0
panic_count (err e) = 0
panic_count panicked = 1

abbrev pub after_handler : System → Connection × Outcome → System
after_handler s (conn, o) = record s { conn = finish o conn; panics = s.panics + panic_count o }

unfoldable pub task_body : Env → Bool → Task → Connection → Connection × Outcome
task_body env authed (uni_stream read) conn = uni_stream_body env authed read conn
task_body env authed (bi_stream read) conn = bi_stream_body env authed read conn
task_body env authed (datagram read) conn = datagram_body env authed read conn

abbrev pub with_auth : IsAuthenticated → System → System
with_auth auth s = record s { conn = record s.conn { is_authenticated = auth } }

-- A task that waits at `self.is_authenticated.clone().await`, once it was polled.
unfoldable pub after_poll : Env → ℕ → Task → IsAuthenticated × Poll Bool → System → System
after_poll env id task (auth, ready authed) s =
    after_handler (record s { tasks = remove id s.tasks })
      (task_body env authed task (with_auth auth s).conn)
after_poll env id task (auth, pending) s =
    with_auth auth (record s { tasks = insert id task s.tasks })

unfoldable pub poll_task : Env → ℕ → Task → System → System
poll_task env id task s = after_poll env id task (poll_authenticated id s.conn.is_authenticated) s

-- A handler's first part, with the poll that follows it where it goes on to wait.
unfoldable pub start :
    Env → (Command × List ℕ → Task) → Connection × Progress (Command × List ℕ) → System → System
unfolding poll_task
start env make (conn, done o) s = after_handler s (conn, o)
start env make (conn, waiting read) s =
    poll_task env s.next_task (make read) (record s { conn = conn; next_task = s.next_task + 1 })

-- `handle` after its `select!`: the streams, datagrams and packets still to come go unread.
unfoldable pub end_connection : System → System
unfolding set_closed
end_connection s = record s {
  running = false;
  conn = record s.conn {
    is_authenticated = record s.conn.is_authenticated {
      is_connection_closed = (set_closed s.conn.is_authenticated.is_connection_closed).0;
    };
  };
}

-- `handle_authentication_timeout` with the outcome of its `select!`.
unfoldable pub handle_authentication_timeout :
    Bool → Connection → Connection × Result ConnectionError (Unit {0})
unfolding close as_error_code wake
handle_authentication_timeout false conn = (conn, ok tt)
handle_authentication_timeout true conn =
    let closed = close (as_error_code authentication_timeout) conn in
    (record closed { is_authenticated = (wake closed.is_authenticated).0 }, err locally_closed)

-- What the branch of `handle` for the timeout makes of that: `Ok(())` does not match its pattern
-- and disables the branch, an error ends the `select!`.
unfoldable pub timeout_branch : Bool → System → System
unfolding handle_authentication_timeout end_connection
timeout_branch is_timeout s =
    let (conn, r) = handle_authentication_timeout is_timeout s.conn in
    let after = record s { conn = conn; watching = false } in
    elim r [ ok _ ↦ after | err e ↦ end_connection after | panicked ↦ after ]

-- The branch's wait for the authentication, once it was polled.
unfoldable pub after_watch : IsAuthenticated × Poll Bool → System → System
unfolding timeout_branch
after_watch (auth, ready _) s = timeout_branch false (with_auth auth s)
after_watch (auth, pending) s = with_auth auth s

unfoldable pub poll_watch : System → System
poll_watch s = after_watch (poll_authenticated 0 s.conn.is_authenticated) s

-- A datagram that arrives at the socket of a session, which goes away with the session's task.
unfoldable pub socket_received : ℕ → List ℕ → SocketAddr → System → System
unfolding receive_packet
socket_received assoc_id pkt from s = elim (lookup assoc_id s.conn.udp_sessions) [
  | none ↦ s
  | some session ↦
      if session.alive
      then record s {
        received = s.received ++ (receive_packet s.max_pkt_size assoc_id pkt from ∷ []);
      }
      else s
]

unfoldable pub take_received : Env → List (ℕ × List ℕ × Address) → System → System
take_received env [] s = s
take_received env ((assoc_id, pkt, addr) ∷ rest) s =
    after_handler (record s { received = rest })
      (process_received_udp_packet env assoc_id pkt addr s.conn)

unfoldable pub poll_waiting : Env → ℕ → System → System
poll_waiting env id s = elim (lookup id s.tasks) [ none ↦ s | some task ↦ poll_task env id task s ]

-- What can happen next. `stream_ended` is an error or the end of one of the `listen_…` loops.
pub data Event : Type 0 where
  uni_stream_opened : List ℕ → Event
  bi_stream_opened : List ℕ → Event
  datagram_arrived : List ℕ → Event
  udp_packet_arrived : ℕ → List ℕ → SocketAddr → Event
  udp_packet_taken : Event
  task_polled : ℕ → Event
  authentication_polled : Event
  authentication_timer_fired : Event
  stream_ended : Event

abbrev pub while_running : System → System → System
while_running s t = if s.running then t else s

unfoldable pub step : Env → Event → System → System
step env (uni_stream_opened bytes) s =
    while_running s (start env uni_stream (uni_stream_head bytes s.conn) s)
step env (bi_stream_opened bytes) s =
    while_running s (start env bi_stream (bi_stream_head bytes s.conn) s)
step env (datagram_arrived bytes) s =
    while_running s (start env datagram (datagram_head bytes s.conn) s)
step env (udp_packet_arrived assoc_id pkt from) s = socket_received assoc_id pkt from s
step env udp_packet_taken s = while_running s (take_received env s.received s)
step env (task_polled id) s = poll_waiting env id s
step env authentication_polled s = while_running s (if s.watching then poll_watch s else s)
step env authentication_timer_fired s =
    while_running s (if s.watching then timeout_branch true s else s)
step env stream_ended s = while_running s (end_connection s)

unfoldable pub run : List (Env × Event) → System → System
run [] s = s
run ((env, e) ∷ es) s = run es (step env e s)
