-- ===== src/Quinn.antt =====
-- The two halves of a stream of the crate `quinn`, as a parameter, on which the streams of
-- client/src/relay/stream.rs and server/src/connection/task.rs stand.
use tuic.Prelude.{ℕ, Bool, List, Answer}
use tuic.Protocol.Reader.{IoError}

-- `std::task::Poll` of a call that can fail.
pub data Poll (A : Type 0) : Type 0 where
  ready : Answer IoError A → Poll A
  pending : Poll A

-- What `quinn` does with a call on the sending and on the receiving half of a stream.
pub record Quinn (S R : Type 0) : Type 0 where
  pub poll_write : List ℕ → S → S × Poll ℕ
  pub poll_write_vectored : List (List ℕ) → S → S × Poll ℕ
  pub is_write_vectored : S → Bool
  pub poll_flush : S → S × Poll (Unit {0})
  pub poll_shutdown : S → S × Poll (Unit {0})
  pub finish : S → S × Answer IoError (Unit {0})
  pub poll_read : (remaining : ℕ) → R → R × Poll (List ℕ)
