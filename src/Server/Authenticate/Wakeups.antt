-- ===== src/Server/Authenticate/Wakeups.antt =====
-- The futures of server/src/connection/authenticate.rs and `IsClosed` under threads: a poll reads
-- the flags and then takes the lock of the wakers, and another thread can run between the two.
use tuic.Prelude.{ℕ, ◌≡◌, arith, Bool, true, false, List, [], ◌∷◌, ◌++◌, if◌then◌else◌}
use tuic.Server.Authenticate.{
  IsAuthenticated, Poll, ready, pending, set_authenticated, wake, poll_authenticated,
}

abbrev pub closed : IsAuthenticated → Bool
closed a = a.is_connection_closed.is_closed

-- The two halves of `IsAuthenticated::poll`: the reads of the flags, and the push of the waker.
unfoldable pub read_flags : IsAuthenticated → Poll Bool
read_flags a = if closed a then ready false else if a.is_authenticated then ready true else pending

unfoldable pub push_waker : ℕ → IsAuthenticated → IsAuthenticated
push_waker task a = record a { broadcast = a.broadcast ++ (task ∷ []) }

abbrev finish_poll : ℕ → IsAuthenticated → Poll Bool → IsAuthenticated × Poll Bool
finish_poll task a (ready b) = (a, ready b)
finish_poll task a pending = (push_waker task a, pending)

-- Without another thread in between the halves are `poll`.
poll_halves :
    (task : ℕ) (a : IsAuthenticated) → poll_authenticated task a ≡ finish_poll task a (read_flags a)
unfolding poll_authenticated read_flags push_waker
poll_halves task a = ground arith

-- A task whose future is pending can be woken: its waker is in the list, or the future is ready.
pub data In (task : ℕ) : List ℕ → Type 0 where
  here : (l : List ℕ) → In task (task ∷ l)
  there : (x : ℕ) {l : List ℕ} → In task l → In task (x ∷ l)

In-last : (task : ℕ) (l : List ℕ) → In task (l ++ (task ∷ []))
In-last task [] = here []
In-last task (x ∷ l) = there x (In-last task l)

-- The authentication of the connection between the two halves of a poll: the poll ends as pending
-- although the connection is authenticated, and the `wake` that belongs to the authentication has
-- gone by; only another `wake`, which the server calls on a failure, would reach the task.
pub lost_wakeup :
    (task : ℕ) (a : IsAuthenticated)
    → closed a ≡ false
    → a.is_authenticated ≡ false
    → let (a', woken) = wake (set_authenticated a) in
      (read_flags a ≡ pending)
      × (woken ≡ a.broadcast)
      × ((push_waker task a').broadcast ≡ task ∷ [])
      × (read_flags (push_waker task a') ≡ ready true)
unfolding wake set_authenticated read_flags push_waker
lost_wakeup task a c n = ground arith

pending_push :
    (task : ℕ) (a : IsAuthenticated)
    → (poll_authenticated task a).1 ≡ pending
    → (poll_authenticated task a).0.broadcast ≡ a.broadcast ++ (task ∷ [])
unfolding poll_authenticated
pending_push task a h = ground arith

-- A poll that is not interrupted loses nothing: where it ends as pending, its waker is handed out
-- by the next `wake`.
pub poll-wake :
    (task : ℕ) (a : IsAuthenticated)
    → (poll_authenticated task a).1 ≡ pending
    → In task (wake (set_authenticated (poll_authenticated task a).0)).1
unfolding wake set_authenticated
poll-wake task a h = rw (pending_push task a h) (In-last task a.broadcast)
