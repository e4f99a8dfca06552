-- ===== src/Client/Connection/Heartbeat.antt =====
-- The loop of `heartbeat` of client/src/relay/connection.rs, poll by poll.
use tuic.Prelude.{
  ℕ, ◌+◌, ◌≡◌, ◌≢◌, refl, sym, arith, Bool, true, false, List, [], ◌∷◌, ◌++◌, length, length-append,
  Option, none, some, if◌then◌else◌, append_assoc, append-nil, ◌∙◌,
}
use tuic.Protocol.Command.{heartbeat, write_command}
use tuic.Client.Connection.{
  Connection, IsClosed, Env, Wire, uni_stream, heartbeat_tick, poll_closed,
}
use tuic.Client.Request.Associate.{IsWorking}

-- A poll of the `tokio::select!`: which branch is tried first, which `tokio` draws at random, and
-- whether the interval has ticked.
pub record Round : Type 0 where
  pub close_first : Bool
  pub ticked : Bool

-- The value of the `select!`: pending, or whether the loop goes on.
unfoldable pub select : ℕ → Round → IsClosed → IsClosed × Option Bool
unfolding poll_closed
select task p c =
    let (polled, is_closed) = poll_closed task c in
    if p.close_first
    then (polled, if is_closed then some false else if p.ticked then some true else none)
    else if p.ticked
    then (c, some true)
    else (polled, if is_closed then some false else none)

-- The body of the loop behind a `select!` of this value, and whether the loop goes on.
unfoldable pub heartbeat_round : Env → Option Bool → Connection → Connection × Bool
unfolding heartbeat_tick
heartbeat_round env none c = (c, true)
heartbeat_round env (some false) c = (c, false)
heartbeat_round env (some true) c = (heartbeat_tick env c, true)

-- One poll of `heartbeat`.
unfoldable pub poll_heartbeat : Env → ℕ → Round → Connection → Connection × Bool
unfolding select heartbeat_round
poll_heartbeat env task p c =
    let (closed, value) = select task p c.is_closed in
    heartbeat_round env value (record c { is_closed = closed })

-- `heartbeat` through these polls.
unfoldable pub run_heartbeat : Env → ℕ → List Round → Connection → Connection × Bool
unfolding poll_heartbeat
run_heartbeat env task [] c = (c, true)
run_heartbeat env task (p ∷ ps) c =
    let (c', goes_on) = poll_heartbeat env task p c in
    let rest = run_heartbeat env task ps c' in if goes_on then rest else (c', false)

-- What the ticks among the polls send.
abbrev pub beat : Round → List Wire
beat p = if p.ticked then uni_stream (write_command heartbeat []) ∷ [] else []

abbrev pub beats : List Round → List Wire
beats [] = []
beats (p ∷ ps) = beat p ++ beats ps

-- The polls that try the close: all but those that find the tick first.
abbrev pub tries_close : Round → ℕ
tries_close p = if p.close_first then 1 else if p.ticked then 0 else 1

abbrev pub closes_tried : List Round → ℕ
closes_tried [] = 0
closes_tried (p ∷ ps) = tries_close p + closes_tried ps

poll_heartbeat-beat :
    (env : Env) (task : ℕ) (p : Round) (c : Connection)
    → IsWorking env
    → c.udp_sessions ≢ []
    → c.is_closed.is_closed ≡ false
    → let (c', goes_on) = poll_heartbeat env task p c in
      (goes_on ≡ true)
      × (c'.wire ≡ c.wire ++ beat p)
      × (c'.udp_sessions ≡ c.udp_sessions)
      × (c'.is_closed.is_closed ≡ false)
      × (length c'.is_closed.wakers ≡ length c.is_closed.wakers + tries_close p)
unfolding poll_heartbeat select heartbeat_round heartbeat_tick poll_closed
poll_heartbeat-beat env task p c w h o =
    ground (arith, append-nil c.wire, length-append c.is_closed.wakers (task ∷ []))

-- While the connection is not closed, a UDP session is open and the transport takes everything, the
-- loop goes on and sends one heartbeat at each tick, and each of its polls that tries the close
-- leaves one more waker in the list, which nothing takes out before the close.
pub run_heartbeat-beats :
    (env : Env) (task : ℕ) (ps : List Round) (c : Connection)
    → IsWorking env
    → c.udp_sessions ≢ []
    → c.is_closed.is_closed ≡ false
    → let (c', goes_on) = run_heartbeat env task ps c in
      (goes_on ≡ true)
      × (c'.wire ≡ c.wire ++ beats ps)
      × (length c'.is_closed.wakers ≡ length c.is_closed.wakers + closes_tried ps)
unfolding run_heartbeat
run_heartbeat-beats env task [] c w h o = (refl, sym (append-nil c.wire), omega arith)
run_heartbeat-beats env task (p ∷ ps) c w h o =
    let (g, wire, sessions, open', wakers) = poll_heartbeat-beat env task p c w h o in
    let (g', wire', wakers') =
      run_heartbeat-beats env task ps (poll_heartbeat env task p c).0 w (λ e. h (sym sessions ∙ e))
        open' in
    grind (arith, append_assoc c.wire (beat p) (beats ps))

-- On a connection that is closed, a poll that tries the close ends the loop, sends nothing and
-- leaves the connection as it is.
pub run_heartbeat-closed :
    (env : Env) (task : ℕ) (p : Round) (ps : List Round) (c : Connection)
    → tries_close p ≡ 1
    → c.is_closed.is_closed ≡ true
    → run_heartbeat env task (p ∷ ps) c ≡ (c, false)
unfolding run_heartbeat poll_heartbeat select heartbeat_round poll_closed
run_heartbeat-closed env task p ps c t o = ground arith
