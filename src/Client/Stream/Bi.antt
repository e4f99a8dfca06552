-- ===== src/Client/Stream/Bi.antt =====
-- `RecvStream` and `BiStream` of client/src/relay/stream.rs.
use tuic.Prelude.{ℕ, Bool, List, Answer}
use tuic.Protocol.Reader.{IoError}
use tuic.Quinn.{Quinn, Poll}
use tuic.Client.Stream.Send.{SendStream}
use tuic.Client.Stream.Send as Send

pub record RecvStream (R : Type 0) : Type 0 where
  pub recv : R

pub record BiStream (S R : Type 0) : Type 0 where
  pub send : SendStream S
  pub recv : RecvStream R

module _ {S R : Type 0} (quinn : Quinn S R) where
  -- `RecvStream::poll_read`, and `BiStream::poll_read`.
  unfoldable recv_poll_read : ℕ → RecvStream R → RecvStream R × Poll (List ℕ)
  recv_poll_read remaining s =
      let (recv', r) = quinn.poll_read remaining s.recv in (record s { recv = recv' }, r)

  unfoldable poll_read : ℕ → BiStream S R → BiStream S R × Poll (List ℕ)
  unfolding recv_poll_read
  poll_read remaining b =
      let (recv', r) = recv_poll_read remaining b.recv in (record b { recv = recv' }, r)

  unfoldable poll_write : List ℕ → BiStream S R → BiStream S R × Poll ℕ
  unfolding Send.poll_write
  poll_write buf b =
      let (send', r) = Send.poll_write quinn buf b.send in (record b { send = send' }, r)

  unfoldable poll_write_vectored : List (List ℕ) → BiStream S R → BiStream S R × Poll ℕ
  unfolding Send.poll_write_vectored
  poll_write_vectored bufs b =
      let (send', r) = Send.poll_write_vectored quinn bufs b.send in (record b { send = send' }, r)

  unfoldable is_write_vectored : BiStream S R → Bool
  unfolding Send.is_write_vectored
  is_write_vectored b = Send.is_write_vectored quinn b.send

  unfoldable poll_flush : BiStream S R → BiStream S R × Poll (Unit {0})
  unfolding Send.poll_flush
  poll_flush b = let (send', r) = Send.poll_flush quinn b.send in (record b { send = send' }, r)

  unfoldable poll_shutdown : BiStream S R → BiStream S R × Poll (Unit {0})
  unfolding Send.poll_shutdown
  poll_shutdown b =
      let (send', r) = Send.poll_shutdown quinn b.send in (record b { send = send' }, r)

  unfoldable finish : BiStream S R → BiStream S R × Answer IoError (Unit {0})
  unfolding Send.finish
  finish b = let (send', r) = Send.finish quinn b.send in (record b { send = send' }, r)
