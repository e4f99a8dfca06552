-- ===== src/Server/Connection/Authentication.antt =====
-- Who counts as authenticated on a connection of server/src/connection/mod.rs.
use tuic.Prelude.{
  ℕ, ◌≡◌, none, refl, arith, Bool, true, false, List, [], ◌∷◌, ok, err, panicked, if◌then◌else◌,
  inl, inr, ◌&&◌, Result-cases,
}
use tuic.Protocol.Command.{Command, authenticate, read_command}
use tuic.Server.Authenticate.{poll_authenticated}
use tuic.Server.Task.{Env}
use tuic.Server.Dispatch.{Connection, contains, uni_stream_head, uni_stream_command}
use tuic.Server.Connection.{
  run, new_system, Task, System, Event, uni_stream_opened, bi_stream_opened, datagram_arrived,
  udp_packet_arrived, udp_packet_taken, task_polled, authentication_polled,
  authentication_timer_fired, stream_ended, end_connection, poll_watch, socket_received, step,
}
use tuic.Server.Connection.Same.{
  Same, start-Same, started-Same, timeout_branch-Same, after_watch-Same, take_received-Same,
  poll_waiting-Same,
}
use tuic.Server.Connection.Handlers.{bi_stream_head_same, datagram_head_same}
use tuic.Server.Connection.Guarded.{authed}
use tuic.Server.Connection.Invariant.{AreEvents, run-new_system-Inv}
use tuic.Server.Connection.Tasks.{poll_answers}

-- Whether bytes are an `Authenticate` command with one of the digests.
abbrev presents_command : List (List ℕ) → Command → Bool
presents_command token (authenticate digest) = contains digest token
presents_command token _ = false

unfoldable pub presents : List (List ℕ) → List ℕ → Bool
presents token bytes = elim (read_command bytes) [
  | ok (cmd, _) ↦ presents_command token cmd
  | err e ↦ false
  | panicked ↦ false
]

uni_stream_command-authed :
    (cmd : Command) (r : List ℕ) (c : Connection)
    → (authed (uni_stream_command (cmd, r) c).0
        ≡ (if presents_command c.token cmd then true else authed c))
      × ((uni_stream_command (cmd, r) c).0.token ≡ c.token)
unfolding uni_stream_command
uni_stream_command-authed (authenticate digest) r c = ground arith
uni_stream_command-authed _ r c = (refl, refl)

uni_stream_head-authed :
    (bytes : List ℕ) (c : Connection)
    → (authed (uni_stream_head bytes c).0 ≡ (if presents c.token bytes then true else authed c))
      × ((uni_stream_head bytes c).0.token ≡ c.token)
unfolding uni_stream_head presents
uni_stream_head-authed bytes c = elim (Result-cases (read_command bytes)) [
  | inl ((cmd, r), e) ↦ rw (e, uni_stream_head, presents) (uni_stream_command-authed cmd r c)
  | inr (inl (e, p)) ↦ rw (p, uni_stream_head, presents) (refl, refl)
  | inr (inr p) ↦ rw (p, uni_stream_head, presents) (refl, refl)
]

-- Whether an event brings a valid `Authenticate` command while the connection is served.
abbrev pub authenticates : System → Event → Bool
authenticates s (uni_stream_opened bytes) = s.running && presents s.conn.token bytes
authenticates s _ = false

choice-Same : (b : Bool) (s t : System) → Same s.conn t.conn → Same s.conn (if b then t else s).conn
choice-Same true s t h = h
choice-Same false s t h = (refl, refl)

-- An event authenticates the connection if it brings a valid `Authenticate` command, and otherwise
-- leaves it as it is; no event changes the accepted tokens.
pub step-authed :
    (env : Env) (e : Event) (s : System)
    → (authed (step env e s).conn ≡ (if authenticates s e then true else authed s.conn))
      × ((step env e s).conn.token ≡ s.conn.token)
unfolding step
step-authed env (uni_stream_opened bytes) s =
    let p = uni_stream_head bytes s.conn in
    ground (arith, uni_stream_head-authed bytes s.conn, start-Same env Task.uni_stream p.0 p.1 s)
step-authed env (bi_stream_opened bytes) s =
    choice-Same s.running s _
      (started-Same env Task.bi_stream s.conn _ s (bi_stream_head_same bytes s.conn))
step-authed env (datagram_arrived bytes) s =
    choice-Same s.running s _
      (started-Same env Task.datagram s.conn _ s (datagram_head_same bytes s.conn))
step-authed env (udp_packet_arrived id pkt from) s = unfold socket_received in ground arith
step-authed env udp_packet_taken s = choice-Same s.running s _ (take_received-Same env s.received s)
step-authed env (task_polled id) s = poll_waiting-Same env id s
step-authed env authentication_polled s =
    let p = poll_authenticated 0 s.conn.is_authenticated in
    choice-Same s.running s _ (
      choice-Same s.watching s (poll_watch s) (
        unfold poll_watch in after_watch-Same p.0 p.1 s (poll_answers 0 s.conn.is_authenticated).0))
step-authed env authentication_timer_fired s =
    choice-Same s.running s _ (choice-Same s.watching s _ (timeout_branch-Same true s))
step-authed env stream_ended s =
    choice-Same s.running s (end_connection s) (unfold end_connection in (refl, refl))

-- No event of the run brings a valid `Authenticate` command.
abbrev pub NoneAuthenticates : List (List ℕ) → List (Env × Event) → Type 0
NoneAuthenticates token [] = Unit {0}
NoneAuthenticates token ((env, uni_stream_opened bytes) ∷ es) =
    (presents token bytes ≡ false) × NoneAuthenticates token es
NoneAuthenticates token ((env, e) ∷ es) = NoneAuthenticates token es

step-unauthenticated :
    (token : List (List ℕ)) (env : Env) (e : Event) (es : List (Env × Event)) (s : System)
    → NoneAuthenticates token ((env, e) ∷ es)
    → s.conn.token ≡ token
    → authed s.conn ≡ false
    → (authed (step env e s).conn ≡ false)
      × ((step env e s).conn.token ≡ token)
      × NoneAuthenticates token es
step-unauthenticated token env (uni_stream_opened bytes) es s h t a =
    ground (arith, step-authed env (uni_stream_opened bytes) s)
step-unauthenticated token env (bi_stream_opened bytes) es s h t a =
    ground (arith, step-authed env (bi_stream_opened bytes) s)
step-unauthenticated token env (datagram_arrived bytes) es s h t a =
    ground (arith, step-authed env (datagram_arrived bytes) s)
step-unauthenticated token env (udp_packet_arrived id pkt from) es s h t a =
    ground (arith, step-authed env (udp_packet_arrived id pkt from) s)
step-unauthenticated token env udp_packet_taken es s h t a =
    ground (arith, step-authed env udp_packet_taken s)
step-unauthenticated token env (task_polled id) es s h t a =
    ground (arith, step-authed env (task_polled id) s)
step-unauthenticated token env authentication_polled es s h t a =
    ground (arith, step-authed env authentication_polled s)
step-unauthenticated token env authentication_timer_fired es s h t a =
    ground (arith, step-authed env authentication_timer_fired s)
step-unauthenticated token env stream_ended es s h t a =
    ground (arith, step-authed env stream_ended s)

stays_unauthenticated :
    (token : List (List ℕ)) (es : List (Env × Event)) (s : System)
    → NoneAuthenticates token es
    → s.conn.token ≡ token
    → authed s.conn ≡ false
    → authed (run es s).conn ≡ false
unfolding run
stays_unauthenticated token [] s h t a = a
stays_unauthenticated token ((env, e) ∷ es) s h t a =
    let (a', t', h') = step-unauthenticated token env e es s h t a in
    stays_unauthenticated token es (step env e s) h' t' a'

-- A client that never sends a valid `Authenticate` command gets nothing: after any events in any
-- order, whose datagrams are bytes, the connection is not authenticated, it has no relay mode and no UDP session, it answered no
-- `Connect` and it sent nothing.
pub run-unauthenticated :
    (token : List (List ℕ)) (max : ℕ) (es : List (Env × Event))
    → AreEvents es
    → NoneAuthenticates token es
    → let c = (run es (new_system token max)).conn in
      (authed c ≡ false)
      × (c.udp_packet_from ≡ none)
      × (c.udp_sessions ≡ [])
      × (c.relays ≡ [])
      × (c.sent ≡ [])
run-unauthenticated token max es h n =
    let v = (run-new_system-Inv token max es h).guarded in
    let a =
      stays_unauthenticated token es (new_system token max) n (unfold new_system in refl)
        (unfold new_system in refl) in
    let m = v.no_mode a in (a, m, v.no_session m, v.no_relay a, v.no_packet m)

run-authed :
    (es : List (Env × Event)) (s : System) → authed s.conn ≡ true → authed (run es s).conn ≡ true
unfolding run
run-authed [] s a = a
run-authed ((env, e) ∷ es) s a = run-authed es (step env e s) (ground (arith, step-authed env e s))

-- A valid `Authenticate` command that comes while the connection is served authenticates it for
-- good, whatever happens afterwards.
pub run-authenticates :
    (env : Env) (bytes : List ℕ) (es : List (Env × Event)) (s : System)
    → s.running ≡ true
    → presents s.conn.token bytes ≡ true
    → authed (run es (step env (uni_stream_opened bytes) s)).conn ≡ true
run-authenticates env bytes es s r p =
    run-authed es _ (ground (arith, step-authed env (uni_stream_opened bytes) s))
