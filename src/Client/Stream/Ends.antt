-- ===== src/Client/Stream/Ends.antt =====
-- The streams of a connection of client/src/relay/connection.rs and the references that they hold:
-- how the ends are made, polled and dropped.
use tuic.Prelude.{
  ℕ, ◌+◌, ◌-◌, ◌==◌, ◌≡◌, ◌≢◌, ◌⊎◌, refl, arith, Bool, true, false, List, [], ◌∷◌, none, some, ok,
  err, Answer, success, failure, if◌then◌else◌,
}
use tuic.Protocol.Reader.{IoError, IoResult}
use tuic.Client.Stream.{
  Register, new_register, clone_register, drop_register, get_register, no_active_stream,
}

-- `reg` is the count of a connection's `StreamRegister`, `ends` the number of the ends of streams
-- that are not dropped, and `is_held` says whether the connection itself still holds a reference.
pub record Streams : Type 0 where
  pub reg : Register
  pub ends : ℕ
  pub is_held : Bool

-- A connection without streams.
unfoldable pub new_streams : Streams
new_streams = record { reg = new_register; ends = 0; is_held = true }

-- `get_send_stream`, given what `open_uni` answers.
unfoldable pub get_send_stream : Answer IoError (Unit {0}) → Streams → Streams × IoResult (Unit {0})
unfolding clone_register
get_send_stream (success _) s = (record s { reg = clone_register s.reg; ends = s.ends + 1 }, ok tt)
get_send_stream (failure e) s = (s, err e)

-- `get_bi_stream`, given what `open_bi` answers: the register is cloned once, and once more for the
-- other end.
unfoldable pub get_bi_stream : Answer IoError (Unit {0}) → Streams → Streams × IoResult (Unit {0})
unfolding clone_register
get_bi_stream (success _) s =
    (record s { reg = clone_register (clone_register s.reg); ends = s.ends + 2 }, ok tt)
get_bi_stream (failure e) s = (s, err e)

-- What a poll of `quinn`'s incoming streams gives: nothing yet, their end, an error or a stream.
pub data Incoming : Type 0 where
  none_yet ended failed stream : Incoming

-- `IncomingUniStreams::poll_next`: a stream keeps the reference that was taken for the poll.
unfoldable pub poll_next : Incoming → Streams → Streams × Incoming
unfolding get_register drop_register
poll_next incoming s = elim (get_register s.reg) [
  | none ↦ (s, ended)
  | some reg ↦ elim incoming [
    | stream ↦ (record s { reg = reg; ends = s.ends + 1 }, stream)
    | none_yet ↦ (record s { reg = drop_register reg }, none_yet)
    | ended ↦ (record s { reg = drop_register reg }, ended)
    | failed ↦ (record s { reg = drop_register reg }, failed)
  ]
]

-- An end is dropped, where there is one, and the last clone of the connection.
unfoldable pub drop_end : Streams → Streams
unfolding drop_register
drop_end s = if s.ends == 0 then s else record s { reg = drop_register s.reg; ends = s.ends - 1 }

unfoldable pub drop_connection : Streams → Streams
unfolding drop_register
drop_connection s = if s.is_held then record s { reg = drop_register s.reg; is_held = false } else s

-- What can happen to the streams of a connection. Only who has the connection opens a stream.
pub data Event : Type 0 where
  uni_opened bi_opened : Answer IoError (Unit {0}) → Event
  incoming_polled : Incoming → Event
  end_dropped connection_dropped : Event

unfoldable pub step : Event → Streams → Streams
unfolding get_send_stream get_bi_stream poll_next drop_end drop_connection
step (uni_opened answer) s = if s.is_held then (get_send_stream answer s).0 else s
step (bi_opened answer) s = if s.is_held then (get_bi_stream answer s).0 else s
step (incoming_polled incoming) s = (poll_next incoming s).0
step end_dropped s = drop_end s
step connection_dropped s = drop_connection s

unfoldable pub run : List Event → Streams → Streams
unfolding step
run [] s = s
run (e ∷ es) s = run es (step e s)

-- One reference for each end, and one for the connection.
abbrev pub IsCounted : Streams → Type 0
IsCounted s = s.reg ≡ s.ends + (if s.is_held then 1 else 0)

step-IsCounted : (e : Event) (s : Streams) → IsCounted s → IsCounted (step e s)
unfolding step
step-IsCounted (uni_opened answer) s h = ground arith
step-IsCounted (bi_opened answer) s h = ground arith
step-IsCounted (incoming_polled incoming) s h = ground arith
step-IsCounted end_dropped s h = ground arith
step-IsCounted connection_dropped s h = ground arith

run-IsCounted : (es : List Event) (s : Streams) → IsCounted s → IsCounted (run es s)
unfolding run
run-IsCounted [] s h = h
run-IsCounted (e ∷ es) s h = run-IsCounted es (step e s) (step-IsCounted e s h)

poll_next_end :
    (incoming : Incoming) (s : Streams)
    → IsCounted s
    → s.is_held ≡ false
    → s.ends ≡ 0
    → poll_next incoming s ≡ (s, ended)
unfolding poll_next
poll_next_end incoming s h a b = ground arith

-- What the counter of a connection's streams says.
abbrev pub IsTold : Incoming → Streams → Type 0
IsTold incoming s =
    IsCounted s
    × ((s.is_held ≡ false) ⊎ (no_active_stream s.reg ≡ (s.ends == 0)))
    × ((s.is_held ≡ true) ⊎ ((s.ends ≢ 0) ⊎ (poll_next incoming s ≡ (s, ended))))

told : (incoming : Incoming) (s : Streams) → IsCounted s → IsTold incoming s
unfolding no_active_stream poll_next
told incoming s h = ground arith

-- However streams are opened, come in and are dropped: the counter of a connection has one reference
-- for each end that is left and one for the connection; so while the connection is there, it is told
-- that no stream is active exactly when no end is left; and without it and without an end the
-- incoming streams are over.
pub run-IsTold : (es : List Event) (incoming : Incoming) → IsTold incoming (run es new_streams)
unfolding new_streams
run-IsTold es incoming = told incoming (run es new_streams) (run-IsCounted es new_streams refl)
