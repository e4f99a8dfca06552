-- ===== src/Tests/Streams.antt =====
-- Examples for the streams of client/src/relay/stream.rs and connection.rs.
use tuic.Prelude.{List, [], ◌∷◌, success, failure}
use tuic.Protocol.Reader.{unexpected_eof}
use tuic.Client.Stream.Ends.{
  Event, uni_opened, bi_opened, incoming_polled, end_dropped, connection_dropped, stream, none_yet,
  new_streams, run, IsTold, run-IsTold,
}

abbrev events : List Event
events =
    bi_opened (success tt)
    ∷ uni_opened (failure unexpected_eof)
    ∷ incoming_polled none_yet
    ∷ incoming_polled stream
    ∷ end_dropped
    ∷ connection_dropped
    ∷ end_dropped
    ∷ end_dropped
    ∷ []

run-IsTold_example : IsTold stream (run events new_streams)
run-IsTold_example = run-IsTold events stream
