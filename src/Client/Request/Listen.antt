-- ===== src/Client/Request/Listen.antt =====
-- `Request::new_connect`, `Request::new_associate` and `listen_requests` of
-- client/src/relay/request.rs: how the requests come to the relay and hold its `Register`.
use tuic.Prelude.{
  ℕ, zero, suc, ◌+◌, ◌<◌, ◌≡◌, arith, Bool, true, false, List, [], ◌∷◌, ◌++◌, length, length-append,
  if◌then◌else◌, ltb,
}
use tuic.Client.Address.{Address}
use tuic.Client.Request.{Register, new_register, clone_register, drop_register, is_requested}
use tuic.Client.Request.Process.{Request, connect, associate}

unfoldable pub new_connect : Address → Request
new_connect addr = connect addr

-- The number is what `get_random_u32` returns.
unfoldable pub new_associate : ℕ → Request
new_associate random = associate random

-- The loop of `listen_requests` goes on or has ended, and these tasks of `process_request` run.
pub record Listener : Type 0 where
  pub is_listening : Bool
  pub register : Register
  pub running : List Request

-- A request came from the socks5 side; the senders of requests are gone; the task of this place in
-- the list has ended.
pub data Event : Type 0 where
  received : Request → Event
  senders_gone : Event
  ended : ℕ → Event

unfoldable pub listen_requests : Listener
unfolding new_register
listen_requests = record { is_listening = true; register = new_register; running = [] }

-- The tasks less the one in this place.
abbrev pub delete : ℕ → List Request → List Request
delete n [] = []
delete zero (r ∷ rs) = rs
delete (suc n) (r ∷ rs) = r ∷ delete n rs

-- What the loop owns (`reg`, dropped at its end) and what its tasks own (`_reg`).
unfoldable pub on_event : Event → Listener → Listener
unfolding clone_register drop_register
on_event (received req) l =
    if l.is_listening
    then record l { register = (clone_register l.register).0; running = l.running ++ (req ∷ []) }
    else l
on_event senders_gone l =
    if l.is_listening
    then record l { is_listening = false; register = drop_register l.register }
    else l
on_event (ended n) l =
    if ltb n (length l.running)
    then record l { register = drop_register l.register; running = delete n l.running }
    else l

unfoldable pub on_events : List Event → Listener → Listener
unfolding on_event
on_events [] l = l
on_events (e ∷ es) l = on_events es (on_event e l)

-- The references to the `Arc` of the register: one of the loop and one of each task.
abbrev pub owners : Listener → ℕ
owners l = (if l.is_listening then 1 else 0) + length l.running

length-delete : (n : ℕ) (rs : List Request) → n < length rs → length (delete n rs) + 1 ≡ length rs
length-delete n [] h = absurd (omega arith)
length-delete zero (r ∷ rs) h = omega arith
length-delete (suc n) (r ∷ rs) h = omega (arith, length-delete n rs (omega arith))

on_event-owners :
    (e : Event) (l : Listener)
    → l.register.count ≡ owners l
    → (on_event e l).register.count ≡ owners (on_event e l)
unfolding on_event clone_register drop_register
on_event-owners (received req) l h = ground (arith, length-append l.running (req ∷ []))
on_event-owners senders_gone l h = ground arith
on_event-owners (ended n) l h = ground (arith, length-delete n l.running)

on_events-owners :
    (es : List Event) (l : Listener)
    → l.register.count ≡ owners l
    → (on_events es l).register.count ≡ owners (on_events es l)
unfolding on_events
on_events-owners [] l h = h
on_events-owners (e ∷ es) l h = on_events-owners es (on_event e l) (on_event-owners e l h)

-- Whatever requests come and end in whatever order, while the loop goes on, `Wait` is ready
-- exactly where a request is under way; after the loop has ended it is ready exactly where two are.
pub on_events-is_requested :
    (es : List Event)
    → let l = on_events es listen_requests in
      is_requested l.register
      ≡ (if l.is_listening then ltb 0 (length l.running) else ltb 1 (length l.running))
unfolding is_requested listen_requests new_register
on_events-is_requested es = ground (arith, on_events-owners es listen_requests (omega arith))
