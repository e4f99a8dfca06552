-- ===== src/Server/Task/Stream.antt =====
-- `BiStream` of server/src/connection/task.rs: the stream that is joined to a TCP connection, which
-- has no `finish` of its own.
use tuic.Prelude.{ℕ, Bool, List}
use tuic.Quinn.{Quinn, Poll}

record BiStream (S R : Type 0) : Type 0 where
  send : S
  recv : R

module _ {S R : Type 0} (quinn : Quinn S R) where
  unfoldable poll_read : ℕ → BiStream S R → BiStream S R × Poll (List ℕ)
  poll_read remaining b =
      let (recv', r) = quinn.poll_read remaining b.recv in (record b { recv = recv' }, r)

  unfoldable poll_write : List ℕ → BiStream S R → BiStream S R × Poll ℕ
  poll_write buf b = let (send', r) = quinn.poll_write buf b.send in (record b { send = send' }, r)

  unfoldable poll_write_vectored : List (List ℕ) → BiStream S R → BiStream S R × Poll ℕ
  poll_write_vectored bufs b =
      let (send', r) = quinn.poll_write_vectored bufs b.send in (record b { send = send' }, r)

  unfoldable is_write_vectored : BiStream S R → Bool
  is_write_vectored b = quinn.is_write_vectored b.send

  unfoldable poll_flush : BiStream S R → BiStream S R × Poll (Unit {0})
  poll_flush b = let (send', r) = quinn.poll_flush b.send in (record b { send = send' }, r)

  unfoldable poll_shutdown : BiStream S R → BiStream S R × Poll (Unit {0})
  poll_shutdown b = let (send', r) = quinn.poll_shutdown b.send in (record b { send = send' }, r)
