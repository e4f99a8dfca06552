-- ===== src/Tests/Serving.antt =====
-- Examples for the server: server/src/connection/.
use tuic.Prelude.{
  ℕ, ◌≡◌, refl, arith, true, false, List, [], ◌∷◌, ◌++◌, none, some, if◌then◌else◌, ok,
}
use tuic.Prelude.Table.{lookup}
use tuic.Protocol.Reader.{read_exact}
use tuic.Protocol.Command.{
  authenticate, connect, write_command, read_command, read_body, read_authenticate,
}
use tuic.Server.Authenticate.{
  IsAuthenticated, ready, pending, set_authenticated, wake, poll_authenticated,
}
use tuic.Server.Authenticate.Wakeups.{read_flags, push_waker, lost_wakeup}
use tuic.Server.Task.{Env}
use tuic.Server.Dispatch.{
  Connection, close, contains, code_authentication_failed, code_authentication_timeout,
}
use tuic.Server.Connection.{
  Task, System, Event, uni_stream_opened, bi_stream_opened, datagram_arrived, task_polled,
  authentication_timer_fired, new_system, step, run, end_connection,
}
use tuic.Server.Connection.Guarded.{authed}
use tuic.Server.Connection.Invariant.{run-new_system-Inv}
use tuic.Server.Connection.Tasks.{Inv}
use tuic.Server.Connection.Authentication.{presents, authenticates, step-authed, run-authenticates}
use tuic.Server.Connection.Closing.{step-wrong_digest, step-end_connection}
use tuic.Tests.{site, digest, wrong_digest, tokens, server_env}

abbrev fresh : System
fresh = new_system tokens 1500

-- A `Connect` that comes before a wrong digest, and is polled after the timeout.
abbrev pub intruder : List (Env × Event)
intruder =
    (server_env, bi_stream_opened (write_command (connect site) []))
    ∷ (server_env, uni_stream_opened (write_command (authenticate wrong_digest) []))
    ∷ (server_env, task_polled 1)
    ∷ (server_env, authentication_timer_fired)
    ∷ (server_env, task_polled 1)
    ∷ []

pub wrong_digest-presents : presents tokens (write_command (authenticate wrong_digest) []) ≡ false
unfolding presents read_command read_body read_authenticate read_exact write_command
wrong_digest-presents = refl

abbrev short_datagram : List (Env × Event)
short_datagram = (server_env, datagram_arrived (4 ∷ 2 ∷ [])) ∷ (server_env, task_polled 1) ∷ []

run-new_system-Inv_example : Inv (run short_datagram (new_system tokens 1500))
run-new_system-Inv_example = run-new_system-Inv tokens 1500 short_datagram (omega arith, (tt, tt))

abbrev login : List ℕ
login = write_command (authenticate digest) []

login-presents : presents fresh.conn.token login ≡ true
unfolding presents read_command read_body read_authenticate read_exact write_command new_system
login-presents = refl

fresh-running : fresh.running ≡ true
unfolding new_system
fresh-running = refl

run-authenticates_example :
    authed (run intruder (step server_env (uni_stream_opened login) fresh)).conn ≡ true
run-authenticates_example =
    run-authenticates server_env login intruder fresh fresh-running login-presents

step-authed_example :
    let s' = step server_env (uni_stream_opened login) fresh in
    (authed s'.conn
      ≡ (if authenticates fresh (uni_stream_opened login) then true else authed fresh.conn))
    × (s'.conn.token ≡ fresh.conn.token)
step-authed_example = step-authed server_env (uni_stream_opened login) fresh

wrong_digest-read :
    read_command (write_command (authenticate wrong_digest) []) ≡ ok (authenticate wrong_digest, [])
unfolding read_command read_body read_authenticate read_exact write_command
wrong_digest-read = refl

wrong_digest-contains : contains wrong_digest fresh.conn.token ≡ false
unfolding new_system
wrong_digest-contains = refl

step-wrong_digest_example :
    let c =
      (step server_env
        (uni_stream_opened (write_command (authenticate wrong_digest) []))
        fresh).conn in
    (c.closes ≡ fresh.conn.closes ++ (code_authentication_failed ∷ code_authentication_failed ∷ []))
    × (c.is_authenticated.broadcast ≡ [])
    × (authed c ≡ authed fresh.conn)
step-wrong_digest_example =
    step-wrong_digest server_env (write_command (authenticate wrong_digest) []) wrong_digest []
      fresh fresh-running wrong_digest-read wrong_digest-contains

-- Task 3 waits for the authentication already.
abbrev waiting_auth : IsAuthenticated
waiting_auth = record {
  is_connection_closed = record { is_closed = false; waker = none };
  is_authenticated = false;
  broadcast = 3 ∷ [];
}

lost_wakeup_example :
    let (a, woken) = wake (set_authenticated waiting_auth) in
    (read_flags waiting_auth ≡ pending)
    × (woken ≡ 3 ∷ [])
    × ((push_waker 4 a).broadcast ≡ 4 ∷ [])
    × (read_flags (push_waker 4 a) ≡ ready true)
lost_wakeup_example = lost_wakeup 4 waiting_auth refl refl

waiting_auth-pending : (poll_authenticated 4 waiting_auth).1 ≡ pending
unfolding poll_authenticated
waiting_auth-pending = refl

abbrev waiting_connection : Connection
waiting_connection = record {
  closes = [];
  sent = [];
  relays = [];
  udp_packet_from = none;
  udp_sessions = [];
  token = tokens;
  is_authenticated = waiting_auth;
}

abbrev waiting_task : Task
waiting_task = Task.bi_stream (connect site, [])

abbrev waiting_system : System
waiting_system = record fresh { conn = waiting_connection; tasks = (3, waiting_task) ∷ [] }

step-end_connection_example :
    let ended = end_connection waiting_system in
    let t = step server_env (task_polled 3) ended in
    (ended.conn.is_authenticated.broadcast ≡ 3 ∷ [])
    × (lookup 3 ended.tasks ≡ some waiting_task)
    × (lookup 3 t.tasks ≡ none)
    × (t.conn ≡ close code_authentication_timeout ended.conn)
    × (t.panics ≡ waiting_system.panics)
step-end_connection_example = step-end_connection server_env 3 waiting_task waiting_system refl
