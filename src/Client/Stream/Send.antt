-- ===== src/Client/Stream/Send.antt =====
-- `SendStream` of client/src/relay/stream.rs. The streams of the crate `quinn` are parameters.
use tuic.Prelude.{ℕ, Bool, List, Answer}
use tuic.Protocol.Reader.{IoError}
use tuic.Quinn.{Quinn, Poll}

-- The `_reg` of a stream is one of the references that a `Register` counts.
pub record SendStream (S : Type 0) : Type 0 where
  pub send : S

module _ {S R : Type 0} (quinn : Quinn S R) where
  unfoldable pub poll_write : List ℕ → SendStream S → SendStream S × Poll ℕ
  poll_write buf s = let (send', r) = quinn.poll_write buf s.send in (record s { send = send' }, r)

  unfoldable pub poll_write_vectored : List (List ℕ) → SendStream S → SendStream S × Poll ℕ
  poll_write_vectored bufs s =
      let (send', r) = quinn.poll_write_vectored bufs s.send in (record s { send = send' }, r)

  unfoldable pub is_write_vectored : SendStream S → Bool
  is_write_vectored s = quinn.is_write_vectored s.send

  unfoldable pub poll_flush : SendStream S → SendStream S × Poll (Unit {0})
  poll_flush s = let (send', r) = quinn.poll_flush s.send in (record s { send = send' }, r)

  unfoldable pub poll_shutdown : SendStream S → SendStream S × Poll (Unit {0})
  poll_shutdown s = let (send', r) = quinn.poll_shutdown s.send in (record s { send = send' }, r)

  unfoldable pub finish : SendStream S → SendStream S × Answer IoError (Unit {0})
  finish s = let (send', r) = quinn.finish s.send in (record s { send = send' }, r)
