-- ===== src/Client/Manage/Invariant.antt =====
-- What holds of the client's connection after any run of events.
use tuic.Prelude.{
  ℕ, ◌+◌, ◌≡◌, ◌≢◌, ◌<◌, ◌⊎◌, ltb, ◌&&◌, refl, arith, Bool, true, false, List, [], ◌∷◌, ◌++◌, none,
  some, Answer, success, failure, if◌then◌else◌,
}
use tuic.Protocol.Reader.{IoError}
use tuic.Client.Request.{Register, is_requested}
use tuic.Client.Manage.{
  Phase, waiting, connecting, sleeping, connected, locking, Relay, new_relay, mem, establish,
  manage, take_connection, listen_next, incoming_ended, Event, manager_polled, request_came,
  request_polled, request_ended, listener_polled, connection_lost, step, run,
}

-- The connection `n` is on its way to the listener, or served by it, or closed; and it is the only one.
abbrev pub Served : ℕ → Relay → Type 0
Served n r =
    ((r.sent ≡ n ∷ []) × (r.listening ≡ none) × (mem n r.closed ≡ false))
    ⊎ ((r.sent ≡ []) × (r.listening ≡ some n) × (mem n r.closed ≡ false))
    ⊎ ((r.sent ≡ []) × (r.listening ≡ none) × (mem n r.closed ≡ true))

-- No connection is on its way or served.
abbrev pub Idle : Relay → Type 0
Idle r = (r.sent ≡ []) × (r.listening ≡ none)

-- What holds where `manage_connection` waits.
abbrev pub AtPhase : Phase → Relay → Type 0
AtPhase waiting r = (r.has_lock ≡ true) × (r.is_locked ≡ true) × Idle r
AtPhase connecting r = (r.has_lock ≡ true) × (r.is_locked ≡ true) × Idle r
AtPhase sleeping r = (r.has_lock ≡ true) × (r.is_locked ≡ true) × Idle r
AtPhase locking r = (r.is_locked ≡ false) × (r.conn ≢ none) × Idle r
AtPhase (connected n) r =
    (r.is_locked ≡ false) × (r.conn ≡ some n) × (n < r.next_connection) × Served n r

abbrev pub all_below : ℕ → List ℕ → Bool
all_below k [] = true
all_below k (m ∷ ms) = ltb m k && all_below k ms

abbrev pub Held : Phase → Relay → Type 0
Held p r =
    (r.phase ≡ p) × AtPhase p r × (all_below r.next_connection r.closed ≡ true) × (r.panics ≡ 0)

-- The manager waits in one of its phases with what that phase needs, and nothing has panicked.
abbrev pub Inv : Relay → Type 0
Inv r = (p : Phase) × Held p r

pub mem-last : (n : ℕ) (ns : List ℕ) → mem n (ns ++ (n ∷ [])) ≡ true
mem-last n [] = ground arith
mem-last n (m ∷ ns) = ground (arith, mem-last n ns)

mem-below : (n : ℕ) (ns : List ℕ) → all_below n ns ≡ true → mem n ns ≡ false
mem-below n [] h = refl
mem-below n (m ∷ ns) h = ground (arith, mem-below n ns)

below-raise : (n : ℕ) (ns : List ℕ) → all_below n ns ≡ true → all_below (n + 1) ns ≡ true
below-raise n [] h = refl
below-raise n (m ∷ ns) h = ground (arith, below-raise n ns)

below-last :
    (k n : ℕ) (ns : List ℕ) → all_below k ns ≡ true → n < k → all_below k (ns ++ (n ∷ [])) ≡ true
below-last k n [] h lt = ground arith
below-last k n (m ∷ ns) h lt = ground (arith, below-last k n ns)

choice-Inv : (b : Bool) (r t : Relay) → Inv r → (b ≡ true → Inv t) → Inv (if b then t else r)
choice-Inv true r t v w = w refl
choice-Inv false r t v w = v

establish-Held : (r : Relay) → Held connecting r → Held (connected r.next_connection) (establish r)
unfolding establish
establish-Held r (e, a, b, c) =
    ground (arith, mem-below r.next_connection r.closed b, below-raise r.next_connection r.closed b)

manage-Inv :
    (outcome : Answer IoError (Unit {0})) (p : Phase) (r : Relay)
    → Held p r
    → Inv (manage outcome r)
unfolding manage
manage-Inv outcome waiting r (e, a, b, c) =
    rw (manage, e)
      (choice-Inv (is_requested r.register) r (record r { phase = connecting })
        (waiting, (e, a, b, c)) (λ _. (connecting, (refl, a, b, c))))
manage-Inv (success _) connecting r h =
    rw (manage, h.0) (connected r.next_connection, establish-Held r h)
manage-Inv (failure x) connecting r (e, a, b, c) = rw (manage, e) (sleeping, (refl, a, b, c))
manage-Inv outcome sleeping r (e, a, b, c) = rw (manage, e) (waiting, (refl, a, b, c))
manage-Inv outcome locking r (e, a, b, c) =
    rw (manage, e, a.0) (waiting, (refl, (refl, refl, a.2), b, c))
manage-Inv outcome (connected n) r (e, a, b, c) =
    rw (manage, e)
      (choice-Inv (mem n r.closed) r (record r { phase = locking }) (connected n, (e, a, b, c))
        (λ m. (locking, (refl, ground arith, b, c))))

take_connection-Held : (p : Phase) (r : Relay) → Held p r → Held p (take_connection r)
unfolding take_connection
take_connection-Held waiting r h = ground arith
take_connection-Held connecting r h = ground arith
take_connection-Held sleeping r h = ground arith
take_connection-Held locking r h = ground arith
take_connection-Held (connected n) r h = ground arith

pub listen_next-Held : (p : Phase) (r : Relay) → Held p r → Held p (listen_next r)
unfolding listen_next
listen_next-Held waiting r h = ground arith
listen_next-Held connecting r h = ground arith
listen_next-Held sleeping r h = ground arith
listen_next-Held locking r h = ground arith
listen_next-Held (connected n) r h = ground arith

pub incoming_ended-Held : (p : Phase) (r : Relay) → Held p r → Held p (incoming_ended r)
unfolding incoming_ended
incoming_ended-Held waiting r h = ground arith
incoming_ended-Held connecting r h = ground arith
incoming_ended-Held sleeping r h = ground arith
incoming_ended-Held locking r h = ground arith
incoming_ended-Held (connected n) r h =
    ground (arith, mem-last n r.closed, below-last r.next_connection n r.closed)

register-Held :
    (p : Phase) (g : Register) (r : Relay) → Held p r → Held p (record r { register = g })
register-Held waiting g r h = h
register-Held connecting g r h = h
register-Held sleeping g r h = h
register-Held locking g r h = h
register-Held (connected n) g r h = h

pub step-Inv : (e : Event) (r : Relay) → Inv r → Inv (step e r)
unfolding step
step-Inv (manager_polled outcome) r (p, h) = manage-Inv outcome p r h
step-Inv request_came r (p, h) = (p, register-Held p _ r h)
step-Inv request_polled r (p, h) = (p, take_connection-Held p r h)
step-Inv request_ended r (p, h) = (p, register-Held p _ r h)
step-Inv listener_polled r (p, h) = (p, listen_next-Held p r h)
step-Inv connection_lost r (p, h) = (p, incoming_ended-Held p r h)

run-Inv : (es : List Event) (r : Relay) → Inv r → Inv (run es r)
unfolding run
run-Inv [] r v = v
run-Inv (e ∷ es) r v = run-Inv es (step e r) (step-Inv e r v)

pub new_relay-Inv : Inv new_relay
unfolding new_relay
new_relay-Inv = (waiting, (refl, (refl, refl, (refl, refl)), refl, refl))

-- After any events in any order nothing has panicked, neither the `unwrap` of the guard nor that of
-- the connection; the closed connections have numbers below the next one; and `manage_connection`
-- waits either with the mutex locked and no connection served, or with the mutex free and a connection in
-- it, of which it will hear the end.
pub run-new_relay-Inv : (es : List Event) → Inv (run es new_relay)
run-new_relay-Inv es = run-Inv es new_relay new_relay-Inv
