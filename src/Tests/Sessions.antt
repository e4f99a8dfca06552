-- ===== src/Tests/Sessions.antt =====
-- Examples for server/src/connection/udp.rs.
use tuic.Prelude.{ℕ, ◌≡◌, ◌≢◌, refl, arith, true, List, [], ◌∷◌, none, some, success, failure}
use tuic.Prelude.Table.{insert}
use tuic.Protocol.Reader.{invalid_encoding}
use tuic.Server.Udp.{UdpSession, SessionMap, send_new, send_packet_round}
use tuic.Server.Udp.Sessions.{handed_to, send_all, send_all-after_failure, send_new_race}
use tuic.Server.Udp.Refinement.{
  Operation, packet_came, dissociated, packet_passed, apply_all, promised_all, view,
  apply_all-promised, rounds, rounds-length,
}
use tuic.Tests.{site, payload}

abbrev working : UdpSession
working = record { queue = []; sent = (payload, site) ∷ []; alive = true }

abbrev loaded : UdpSession
loaded = record { queue = (payload, site) ∷ []; sent = (9 ∷ [], site) ∷ []; alive = true }

abbrev sessions : SessionMap
sessions = (5, working) ∷ (6, loaded) ∷ []

six-five : ◌≢◌ {A = ℕ} 6 5
six-five e = omega arith

loaded-queue : loaded.queue ≢ []
loaded-queue e = cc

send_all-after_failure_example :
    handed_to 6 (
      send_all 6
        ((payload, site) ∷ (9 ∷ [], site) ∷ [])
        (insert 6 (send_packet_round (failure invalid_encoding) loaded) sessions))
    ≡ loaded.sent
send_all-after_failure_example =
    send_all-after_failure 6 loaded invalid_encoding sessions
      ((payload, site) ∷ (9 ∷ [], site) ∷ []) loaded-queue

send_new_race_example :
    (handed_to 7
        (send_new 7 (9 ∷ []) site (success tt) (send_new 7 payload site (success tt) sessions).0).0
      ≡ (9 ∷ [], site) ∷ [])
    × (handed_to 7 (send_all 7 ((payload, site) ∷ (9 ∷ [], site) ∷ []) sessions)
        ≡ (payload, site) ∷ (9 ∷ [], site) ∷ [])
send_new_race_example = send_new_race 7 payload (9 ∷ []) site site sessions refl

abbrev operations : List Operation
operations =
    packet_came 5 (payload, site) (failure invalid_encoding)
    ∷ packet_came 5 (payload, site) (success tt)
    ∷ packet_came 6 (9 ∷ [], site) (success tt)
    ∷ packet_passed 5
    ∷ packet_came 5 (8 ∷ [], site) (success tt)
    ∷ dissociated 6
    ∷ []

operations-promised :
    promised_all operations (λ _. none) 5 ≡ some ((payload, site) ∷ (8 ∷ [], site) ∷ [])
operations-promised = refl

apply_all-promised_example : view (apply_all operations []) ≡ promised_all operations (λ _. none)
apply_all-promised_example = apply_all-promised operations

rounds-length_example :
    rounds 2 (record {
      queue = (payload, site) ∷ (8 ∷ [], site) ∷ [];
      sent = (9 ∷ [], site) ∷ [];
      alive = true;
    })
    ≡ record {
      queue = [];
      sent = (9 ∷ [], site) ∷ (payload, site) ∷ (8 ∷ [], site) ∷ [];
      alive = true;
    }
rounds-length_example =
    rounds-length ((payload, site) ∷ (8 ∷ [], site) ∷ []) ((9 ∷ [], site) ∷ []) true
