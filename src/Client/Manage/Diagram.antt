-- ===== src/Client/Manage/Diagram.antt =====
-- The way of `manage_connection` of client/src/relay/connection.rs through its phases.
use tuic.Prelude.{
  ℕ, ◌+◌, ◌≡◌, ◌≢◌, ◌⊎◌, inl, inr, sym, subst, refl, arith, Bool, true, false, List, [], ◌∷◌,
  Answer, success, failure, if◌then◌else◌,
}
use tuic.Protocol.Reader.{IoError}
use tuic.Client.Request.{is_requested}
use tuic.Client.Manage.{
  Phase, waiting, connecting, sleeping, connected, locking, Relay, new_relay, mem, establish,
  try_connect, manage, take_connection, listen_next, incoming_ended, Event, manager_polled,
  request_came, request_polled, request_ended, listener_polled, connection_lost, step, run,
}
use tuic.Client.Manage.Invariant.{Held, Inv, step-Inv, new_relay-Inv, run-new_relay-Inv}

-- Where the manager is, and how many connections there have been.
abbrev pub Position : Type 0
Position = Phase × ℕ

infix 40 ◌⟶◌ ◌⟶*◌
-- The ways on: a request starts an attempt; an attempt fails, or makes the connection of the next
-- number; the second after a failure is over; a connection is lost; and the mutex is locked again.
pub data ◌⟶◌ : Position → Position → Type 0 where
  requested : {n : ℕ} → (waiting, n) ⟶ (connecting, n)
  failed : {n : ℕ} → (connecting, n) ⟶ (sleeping, n)
  established : {n : ℕ} → (connecting, n) ⟶ (connected n, n + 1)
  slept : {n : ℕ} → (sleeping, n) ⟶ (waiting, n)
  lost : {m n : ℕ} → (connected m, n) ⟶ (locking, n)
  locked : {n : ℕ} → (locking, n) ⟶ (waiting, n)

pub data ◌⟶*◌ : Position → Position → Type 0 where
  here : {p : Position} → p ⟶* p
  on : {p q r : Position} → p ⟶ q → q ⟶* r → p ⟶* r

abbrev pub position : Relay → Position
position r = (r.phase, r.next_connection)

-- The manager stays or goes one way on.
abbrev Moves : Position → Position → Type 0
Moves p q = (q ≡ p) ⊎ (p ⟶ q)

-- A turn in this phase: an attempt ends and a pause is over, while the other phases can go on.
abbrev Turn : Phase → Position → Position → Type 0
Turn connecting p q = p ⟶ q
Turn sleeping p q = p ⟶ q
Turn waiting p q = Moves p q
Turn locking p q = Moves p q
Turn (connected n) p q = Moves p q

-- What an event does to the manager: it is its turn, or it stays.
abbrev pub Next : Event → Position → Position → Type 0
Next (manager_polled outcome) p q = Turn p.0 p q
Next request_came p q = q ≡ p
Next request_polled p q = q ≡ p
Next request_ended p q = q ≡ p
Next listener_polled p q = q ≡ p
Next connection_lost p q = q ≡ p

choice-Moves :
    (b : Bool) (r t : Relay)
    → position r ⟶ position t
    → Moves (position r) (position (if b then t else r))
choice-Moves true r t m = inr m
choice-Moves false r t m = inl refl

keep-Moves :
    (b : Bool) (r t : Relay)
    → position r ⟶ position t
    → Moves (position r) (position (if b then r else t))
keep-Moves true r t m = inl refl
keep-Moves false r t m = inr m

-- A way on from the phase that a relay is in.
way :
    (p : Phase) (r : Relay) (q : Position)
    → r.phase ≡ p
    → (p, r.next_connection) ⟶ q
    → position r ⟶ q
way p r q e w = subst (λ x. (x, r.next_connection) ⟶ q) (sym e) w

-- What a turn of the manager does in each of its phases.
manage_in :
    (outcome : Answer IoError (Unit {0})) (p : Phase) (r : Relay)
    → r.phase ≡ p
    → manage outcome r ≡ elim p [
      | waiting ↦ if is_requested r.register then record r { phase = connecting } else r
      | connecting ↦ try_connect outcome r
      | sleeping ↦ record r { phase = waiting }
      | connected n ↦ if mem n r.closed then record r { phase = locking } else r
      | locking ↦
          if r.is_locked then r else record r { phase = waiting; has_lock = true; is_locked = true }
    ]
unfolding manage
manage_in outcome waiting r e = ground arith
manage_in outcome connecting r e = ground arith
manage_in outcome sleeping r e = ground arith
manage_in outcome locking r e = ground arith
manage_in outcome (connected n) r e = ground arith

established_at :
    (r : Relay)
    → r.has_lock ≡ true
    → position (establish r) ≡ (connected r.next_connection, r.next_connection + 1)
unfolding establish
established_at r l = ground arith

connects :
    (outcome : Answer IoError (Unit {0})) (r : Relay)
    → Held connecting r
    → position r ⟶ position (try_connect outcome r)
unfolding try_connect establish
connects (success _) r h =
    subst (λ q. position r ⟶ q) (sym (established_at r h.1.0)) (way connecting r _ h.0 established)
connects (failure x) r h = way connecting r _ h.0 failed

-- Such a turn goes a way on.
turn :
    (outcome : Answer IoError (Unit {0})) (p : Phase) (r : Relay)
    → Held p r
    → Turn p (position r) (
        position (elim p [
          | waiting ↦ if is_requested r.register then record r { phase = connecting } else r
          | connecting ↦ try_connect outcome r
          | sleeping ↦ record r { phase = waiting }
          | connected n ↦ if mem n r.closed then record r { phase = locking } else r
          | locking ↦
              if r.is_locked
              then r
              else record r { phase = waiting; has_lock = true; is_locked = true }
        ]))
turn outcome waiting r h = choice-Moves _ r _ (way waiting r _ h.0 requested)
turn outcome connecting r h = connects outcome r h
turn outcome sleeping r h = way sleeping r _ h.0 slept
turn outcome locking r h = keep-Moves _ r _ (way locking r _ h.0 locked)
turn outcome (connected n) r h = choice-Moves _ r _ (way (connected n) r _ h.0 lost)

manage-Turn :
    (outcome : Answer IoError (Unit {0})) (p : Phase) (r : Relay)
    → Held p r
    → Turn r.phase (position r) (position (manage outcome r))
manage-Turn outcome p r h =
    subst (λ q. Turn q (position r) (position (manage outcome r))) (sym h.0)
      (subst (λ (t : Relay). Turn p (position r) (position t)) (sym (manage_in outcome p r h.0))
        (turn outcome p r h))

quiet_phase :
    (e : Event) (r : Relay)
    → ((outcome : Answer IoError (Unit {0})) → e ≢ manager_polled outcome)
    → position (step e r) ≡ position r
unfolding step take_connection listen_next incoming_ended
quiet_phase (manager_polled outcome) r n = absurd (n outcome refl)
quiet_phase request_came r n = refl
quiet_phase request_polled r n = ground arith
quiet_phase request_ended r n = refl
quiet_phase listener_polled r n = ground arith
quiet_phase connection_lost r n = ground arith

step-Next : (e : Event) (r : Relay) → Inv r → Next e (position r) (position (step e r))
unfolding step
step-Next (manager_polled outcome) r (p, h) = manage-Turn outcome p r h
step-Next request_came r v = refl
step-Next request_polled r v = quiet_phase request_polled r (λ o q. cc)
step-Next request_ended r v = refl
step-Next listener_polled r v = quiet_phase listener_polled r (λ o q. cc)
step-Next connection_lost r v = quiet_phase connection_lost r (λ o q. cc)

Turn-Moves : (p : Phase) (q r : Position) → Turn p q r → Moves q r
Turn-Moves connecting q r t = inr t
Turn-Moves sleeping q r t = inr t
Turn-Moves waiting q r t = t
Turn-Moves locking q r t = t
Turn-Moves (connected n) q r t = t

Next-Moves : (e : Event) (p q : Position) → Next e p q → Moves p q
Next-Moves (manager_polled outcome) p q t = Turn-Moves p.0 p q t
Next-Moves request_came p q t = inl t
Next-Moves request_polled p q t = inl t
Next-Moves request_ended p q t = inl t
Next-Moves listener_polled p q t = inl t
Next-Moves connection_lost p q t = inl t

move_on : (p q r : Position) → Moves p q → q ⟶* r → p ⟶* r
move_on p q r (inl e) w = subst (λ x. x ⟶* r) e w
move_on p q r (inr m) w = on m w

run-Moves : (es : List Event) (r : Relay) → Inv r → position r ⟶* position (run es r)
unfolding run
run-Moves [] r v = here
run-Moves (e ∷ es) r v =
    move_on (position r) (position (step e r)) _ (Next-Moves e (position r) _ (step-Next e r v))
      (run-Moves es (step e r) (step-Inv e r v))

-- After any events in any order, the next event takes the manager one way of the diagram on or leaves
-- it where it is: it goes on only in a turn of its own, and then always from an attempt and from a
-- pause.
pub step-⟶ :
    (es : List Event) (e : Event)
    → Next e (position (run es new_relay)) (position (step e (run es new_relay)))
step-⟶ es e = step-Next e (run es new_relay) (run-new_relay-Inv es)

-- So whatever happens, the manager goes from its start along the ways of the diagram.
pub run-⟶* : (es : List Event) → position new_relay ⟶* position (run es new_relay)
run-⟶* es = run-Moves es new_relay new_relay-Inv
