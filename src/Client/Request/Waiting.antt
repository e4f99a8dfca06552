-- ===== src/Client/Request/Waiting.antt =====
-- The `Wait` future of client/src/relay/request.rs under threads.
use tuic.Prelude.{ℕ, ◌≡◌, ◌<◌, arith, true, false, some}
use tuic.Client.Request.{Register, clone_register, is_requested, leave_waker, poll_wait}

-- A request that comes between the two halves of a poll is not seen: its clone wakes no one but a
-- waker that was there before, and the poll ends as pending with a request waiting.
pub lost_request :
    (task : ℕ) (r : Register)
    → r.count ≡ 1
    → let (r', woken) = clone_register r in
      (is_requested r ≡ false)
      × (woken ≡ r.waker)
      × (is_requested (leave_waker task r') ≡ true)
      × ((leave_waker task r').waker ≡ some task)
unfolding clone_register is_requested leave_waker
lost_request task r h = ground arith

-- A poll that is not interrupted loses no request: where it is pending, the next request wakes it
-- and the poll after that is ready.
pub poll_wait-clone :
    (task other : ℕ) (r : Register)
    → 0 < r.count
    → (poll_wait task r).1 ≡ false
    → let (r', woken) = clone_register (poll_wait task r).0 in
      (woken ≡ some task) × ((poll_wait other r').1 ≡ true)
unfolding clone_register poll_wait
poll_wait-clone task other r h p = ground arith
