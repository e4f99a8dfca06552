-- ===== src/Server/Authenticate.antt =====
-- server/src/connection/authenticate.rs, and `IsClosed` of server/src/connection/mod.rs: the two
-- futures a task of a connection waits on. A waker is the number of its task.
pub mod Wakeups
use tuic.Prelude.{ℕ, Bool, true, false, List, [], ◌∷◌, ◌++◌, Option, none, some, if◌then◌else◌}

pub record IsClosed : Type 0 where
  pub is_closed : Bool
  pub waker : Option ℕ

pub data Poll (A : Type 0) : Type 0 where
  ready : A → Poll A
  pending : Poll A

unfoldable pub new_is_closed : IsClosed
new_is_closed = record { is_closed = false; waker = none }

-- `IsClosed::set_closed`: the new state, and the task that is woken.
unfoldable pub set_closed : IsClosed → IsClosed × Option ℕ
set_closed c = (record { is_closed = true; waker = none }, c.waker)

-- `IsClosed::poll`.
unfoldable pub poll_closed : ℕ → IsClosed → IsClosed × Poll (Unit {0})
poll_closed task c =
    if c.is_closed then (c, ready tt) else (record c { waker = some task }, pending)

pub record IsAuthenticated : Type 0 where
  pub is_connection_closed : IsClosed
  pub is_authenticated : Bool
  pub broadcast : List ℕ

unfoldable pub new_is_authenticated : IsClosed → IsAuthenticated
new_is_authenticated c = record {
  is_connection_closed = c;
  is_authenticated = false;
  broadcast = [];
}

unfoldable pub set_authenticated : IsAuthenticated → IsAuthenticated
set_authenticated a = record a { is_authenticated = true }

-- `IsAuthenticated::wake`: the new state, and the tasks that are woken.
unfoldable pub wake : IsAuthenticated → IsAuthenticated × List ℕ
wake a = (record a { broadcast = [] }, a.broadcast)

-- `IsAuthenticated::poll`.
unfoldable pub poll_authenticated : ℕ → IsAuthenticated → IsAuthenticated × Poll Bool
poll_authenticated task a =
    if a.is_connection_closed.is_closed
    then (a, ready false)
    else if a.is_authenticated
    then (a, ready true)
    else (record a { broadcast = a.broadcast ++ (task ∷ []) }, pending)
