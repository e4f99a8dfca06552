-- ===== src/Client/Manage/Reconnect.antt =====
-- That the client's requests are given a connection, and that a lost one is given up.
use tuic.Prelude.{
  ℕ, sym, ap, subst, ◌∙◌, ◌≡◌, Option-cases, inl, inr, refl, arith, true, false, List, [], ◌∷◌,
  ◌++◌, some, Answer,
}
use tuic.Protocol.Reader.{IoError}
use tuic.Client.Manage.{
  waiting, connecting, sleeping, connected, locking, Relay, new_relay, mem, manage, take_connection,
  listen_next, incoming_ended, Event, manager_polled, listener_polled, connection_lost, step, run,
}
use tuic.Client.Manage.Invariant.{
  Held, Inv, mem-last, listen_next-Held, incoming_ended-Held, run-new_relay-Inv,
}

gives :
    (r : Relay)
    → Inv r
    → r.is_locked ≡ false
    → (n : ℕ) × (r.conn ≡ some n) × ((take_connection r).taken ≡ r.taken ++ (n ∷ []))
unfolding take_connection
gives r (waiting, h) u = absurd (ground arith)
gives r (connecting, h) u = absurd (ground arith)
gives r (sleeping, h) u = absurd (ground arith)
gives r (locking, (e, a, b, c)) u = elim (Option-cases r.conn) [
  | inl none_there ↦ absurd (a.1 none_there)
  | inr (n, there) ↦ (n, there, ground arith)
]
gives r (connected n, (e, a, b, c)) u = (n, a.1, ground arith)

-- After any events in any order a request that finds the mutex free is given a connection.
pub take_connection-run :
    (es : List Event)
    → (run es new_relay).is_locked ≡ false
    → let r = run es new_relay in
      (n : ℕ) × (r.conn ≡ some n) × ((take_connection r).taken ≡ r.taken ++ (n ∷ []))
take_connection-run es u = gives (run es new_relay) (run-new_relay-Inv es) u

numbers : (m n : ℕ) → connected m ≡ connected n → m ≡ n
numbers m n e = cc

phase-Held : (n : ℕ) (r : Relay) → Inv r → r.phase ≡ connected n → Held (connected n) r
phase-Held n r (waiting, h) q = absurd (cc (h.0, q))
phase-Held n r (connecting, h) q = absurd (cc (h.0, q))
phase-Held n r (sleeping, h) q = absurd (cc (h.0, q))
phase-Held n r (locking, h) q = absurd (cc (h.0, q))
phase-Held n r (connected m, h) q =
    let same : m ≡ n = numbers m n (sym h.0 ∙ q) in subst (λ k. Held (connected k) r) same h

loses :
    (n : ℕ) (r : Relay)
    → Held (connected n) r
    → mem n (incoming_ended (listen_next r)).closed ≡ true
unfolding incoming_ended listen_next
loses n r h = ground (arith, mem-last n r.closed)

manage-connected :
    (n : ℕ) (one : Answer IoError (Unit {0})) (r : Relay)
    → r.phase ≡ connected n
    → mem n r.closed ≡ true
    → manage one r ≡ record r { phase = locking }
unfolding manage
manage-connected n one r e m = rw (manage, e, m) refl

manage-locking :
    (two : Answer IoError (Unit {0})) (r : Relay)
    → r.phase ≡ locking
    → r.is_locked ≡ false
    → manage two r ≡ record r { phase = waiting; has_lock = true; is_locked = true }
unfolding manage
manage-locking two r e u = rw (manage, e, u) refl

-- Where any events in any order have left `manage_connection` with a connection, and the listener
-- goes on, the connection is lost and the manager goes on twice: the connection is marked as closed,
-- and the manager has the lock and waits for the next request.
pub run-connection_lost :
    (es : List Event) (n : ℕ) (one two : Answer IoError (Unit {0}))
    → (run es new_relay).phase ≡ connected n
    → let r =
        run
          (listener_polled ∷ connection_lost ∷ manager_polled one ∷ manager_polled two ∷ [])
          (run es new_relay) in
      (r.phase ≡ waiting) × (mem n r.closed ≡ true) × (r.has_lock ≡ true)
unfolding step
run-connection_lost es n one two e =
    let r = run es new_relay in
    let held = phase-Held n r (run-new_relay-Inv es) e in
    let lost = incoming_ended (listen_next r) in
    let held' =
      incoming_ended-Held (connected n) (listen_next r) (listen_next-Held (connected n) r held) in
    let closed = loses n r held in
    let seen = manage-connected n one lost held'.0 closed in
    let relocked =
      ap (manage two) seen ∙ manage-locking two (record lost { phase = locking }) refl held'.1.0 in
    unfold run in
    subst (λ (t : Relay). (t.phase ≡ waiting) × (mem n t.closed ≡ true) × (t.has_lock ≡ true))
      (sym relocked) (refl, closed, refl)
