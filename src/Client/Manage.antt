-- ===== src/Client/Manage.antt =====
-- How the client keeps a connection: `manage_connection` of client/src/relay/connection.rs, the loop
-- of `listen_incoming` of client/src/relay/incoming.rs, and the part of `process_request` of
-- client/src/relay/request.rs that takes the connection. Connections are numbered as they are made.
pub mod Invariant
pub mod Reconnect
pub mod Diagram
pub mod Requests
use tuic.Prelude.{
  ℕ, ◌+◌, ◌==◌, ◌||◌, ◌&&◌, not, Bool, true, false, List, [], ◌∷◌, ◌++◌, Option, none, some, Answer,
  success, failure, if◌then◌else◌,
}
use tuic.Protocol.Reader.{IoError}
use tuic.Client.Request.{Register, new_register, clone_register, drop_register, is_requested}

-- Where `manage_connection` waits: for a request, for an attempt, for the second after a failure, for the close of a
-- connection, and for the lock.
pub data Phase : Type 0 where
  waiting connecting sleeping locking : Phase
  connected : ℕ → Phase

-- `conn` is the content of the mutex and `is_locked` whether it is locked; `has_lock` says whether
-- the variable `lock` of `manage_connection` has the guard. `sent` is the chain of one-shot channels
-- that `listen_incoming` has not gone through, `listening` the connection that it serves, `closed`
-- the connections with `set_closed` called, and `taken` those that the requests were given.
pub record Relay : Type 0 where
  pub phase : Phase
  pub has_lock : Bool
  pub conn : Option ℕ
  pub is_locked : Bool
  pub register : Register
  pub next_connection : ℕ
  pub sent : List ℕ
  pub listening : Option ℕ
  pub closed : List ℕ
  pub taken : List ℕ
  pub panics : ℕ

-- `init`: the mutex is empty and locked.
unfoldable pub new_relay : Relay
unfolding new_register
new_relay = record {
  phase = waiting;
  has_lock = true;
  conn = none;
  is_locked = true;
  register = new_register;
  next_connection = 0;
  sent = [];
  listening = none;
  closed = [];
  taken = [];
  panics = 0;
}

abbrev pub mem : ℕ → List ℕ → Bool
mem n [] = false
mem n (m ∷ ms) = (m == n) || mem n ms

-- A connection is established: `lock.take().unwrap()`, the mutex is filled and unlocked, and the
-- streams go to `listen_incoming`.
unfoldable pub establish : Relay → Relay
establish r =
    if r.has_lock
    then record r {
      phase = connected r.next_connection;
      has_lock = false;
      conn = some r.next_connection;
      is_locked = false;
      next_connection = r.next_connection + 1;
      sent = r.sent ++ (r.next_connection ∷ []);
    }
    else record r { panics = r.panics + 1 }

-- The outcome of `Connection::connect` in the inner loop.
unfoldable pub try_connect : Answer IoError (Unit {0}) → Relay → Relay
unfolding establish
try_connect (success _) r = establish r
try_connect (failure e) r = record r { phase = sleeping }

-- `manage_connection`, when it goes on from where it waits. The outcome is that of an attempt that
-- is over.
unfoldable pub manage : Answer IoError (Unit {0}) → Relay → Relay
unfolding try_connect is_requested
manage outcome r = elim r.phase [
  | waiting ↦ if is_requested r.register then record r { phase = connecting } else r
  | connecting ↦ try_connect outcome r
  | sleeping ↦ record r { phase = waiting }
  | connected n ↦ if mem n r.closed then record r { phase = locking } else r
  | locking ↦
      if r.is_locked then r else record r { phase = waiting; has_lock = true; is_locked = true }
]

-- `conn.lock()` and `lock.as_ref().unwrap()` of `process_request`; the lock is dropped at once.
unfoldable pub take_connection : Relay → Relay
take_connection r = if r.is_locked then r else elim r.conn [
  | none ↦ record r { panics = r.panics + 1 }
  | some n ↦ record r { taken = r.taken ++ (n ∷ []) }
]

-- `listen_incoming` takes the next connection.
unfoldable pub listen_next : Relay → Relay
listen_next r = elim r.listening [
  | some n ↦ r
  | none ↦ elim r.sent [ [] ↦ r | n ∷ ns ↦ record r { sent = ns; listening = some n } ]
]

-- The loop over the datagrams or streams of a connection ends, and it is marked as closed.
unfoldable pub incoming_ended : Relay → Relay
incoming_ended r = elim r.listening [
  | none ↦ r
  | some n ↦ record r { listening = none; closed = r.closed ++ (n ∷ []) }
]

pub data Event : Type 0 where
  manager_polled : Answer IoError (Unit {0}) → Event
  request_came request_polled request_ended listener_polled connection_lost : Event

unfoldable pub step : Event → Relay → Relay
unfolding manage take_connection listen_next incoming_ended clone_register drop_register
step (manager_polled outcome) r = manage outcome r
step request_came r = record r { register = (clone_register r.register).0 }
step request_polled r = take_connection r
step request_ended r = record r { register = drop_register r.register }
step listener_polled r = listen_next r
step connection_lost r = incoming_ended r

unfoldable pub run : List Event → Relay → Relay
run [] r = r
run (e ∷ es) r = run es (step e r)
