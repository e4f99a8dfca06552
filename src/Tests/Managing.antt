-- ===== src/Tests/Managing.antt =====
-- Examples for the client's connection management.
use tuic.Prelude.{
  ℕ, ◌≡◌, refl, true, false, List, [], ◌∷◌, ◌++◌, length, ltb, if◌then◌else◌, some, ok, success,
  failure,
}
use tuic.Protocol.Reader.{unable_to_connect}
use tuic.Client.Manage.{
  waiting, connected, Event, manager_polled, request_came, listener_polled, connection_lost,
  new_relay, run, step, mem,
}
use tuic.Client.Manage.Invariant.{Inv, run-new_relay-Inv}
use tuic.Client.Connection.{quic, new_connection}
use tuic.Client.Request.Process.{Channels, associate, serve, process_request}
use tuic.Client.Request.Listen.{
  received, senders_gone, ended, new_connect, new_associate, on_events, on_events-is_requested,
}
use tuic.Client.Request.Listen as Listening
use tuic.Client.Manage.Diagram.{Next, position, step-⟶}
use tuic.Client.Manage.Requests.{content, process_request-run}
use tuic.Tests.{client_env, resolver}
use tuic.Client.Address.{socket_address}
use tuic.Client.Request.{new_register, clone_register, drop_register, is_requested}
use tuic.Client.Manage.Reconnect.{run-connection_lost}

-- A request comes, the first attempt fails, the second succeeds.
abbrev first_connection : List Event
first_connection =
    request_came
    ∷ manager_polled (success tt)
    ∷ manager_polled (failure unable_to_connect)
    ∷ manager_polled (success tt)
    ∷ manager_polled (success tt)
    ∷ manager_polled (success tt)
    ∷ []

run-new_relay-Inv_example : Inv (run first_connection new_relay)
run-new_relay-Inv_example = run-new_relay-Inv first_connection

first_connection-unlocked : (run first_connection new_relay).is_locked ≡ false
unfolding run step new_relay
first_connection-unlocked = refl

first_connection-phase : (run first_connection new_relay).phase ≡ connected 0
unfolding run step new_relay
first_connection-phase = refl

run-connection_lost_example :
    let r =
      run
        (listener_polled
          ∷ connection_lost
          ∷ manager_polled (success tt)
          ∷ manager_polled (success tt)
          ∷ [])
        (run first_connection new_relay) in
    (r.phase ≡ waiting) × (mem 0 r.closed ≡ true) × (r.has_lock ≡ true)
run-connection_lost_example =
    run-connection_lost first_connection 0 (success tt) (success tt) first_connection-phase

abbrev channels : Channels
channels = record { answer = []; packets = []; pkt_recv_tx = record { sent = []; open' = true } }

process_request-run_example :
    let r = run first_connection new_relay in
    (n : ℕ) × (r.conn ≡ some n)
    × (process_request client_env channels
          (content (λ _. new_connection quic 1500 1500) r.conn)
          (associate 7)
        ≡ ok (serve client_env channels (associate 7) (new_connection quic 1500 1500)))
process_request-run_example =
    process_request-run first_connection client_env channels (λ _. new_connection quic 1500 1500)
      (associate 7) first_connection-unlocked

-- The turn that waits for the loss of the connection.
step-⟶_example :
    Next
      (manager_polled (success tt))
      (position (run first_connection new_relay))
      (position (step (manager_polled (success tt)) (run first_connection new_relay)))
step-⟶_example = step-⟶ first_connection (manager_polled (success tt))

-- Two requests come, and the socks5 side ends.
abbrev two_requests : List Listening.Event
unfolding new_connect new_associate
two_requests =
    received (new_associate 7)
    ∷ received (new_connect (socket_address resolver))
    ∷ senders_gone
    ∷ []

on_events-is_requested_example :
    let l = on_events two_requests Listening.listen_requests in
    is_requested l.register
    ≡ (if l.is_listening then ltb 0 (length l.running) else ltb 1 (length l.running))
on_events-is_requested_example = on_events-is_requested two_requests

two_requests-ready : is_requested (on_events two_requests Listening.listen_requests).register ≡ true
unfolding on_events Listening.on_event Listening.listen_requests new_connect new_associate
    new_register clone_register drop_register is_requested
two_requests-ready = refl

-- Only the task of the `Connect` is left.
one_left-pending :
    let l = on_events (two_requests ++ (ended 0 ∷ [])) Listening.listen_requests in
    (is_requested l.register ≡ false) × (length l.running ≡ 1)
unfolding on_events Listening.on_event Listening.listen_requests new_connect new_associate
    new_register clone_register drop_register is_requested
one_left-pending = (refl, refl)
