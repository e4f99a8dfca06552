-- ===== src/Prelude/Slices.antt =====
-- The slices of a byte string behind a prefix.
use tuic.Prelude.Lists.{length, take, drop, length-append, take-append, drop-append}
use tuic.Prelude.Outcome.{ok}
use tuic.Prelude.Bytes.{slice, slice_from}
use Prim.Native.Nat.{ℕ, ◌+◌, ◌-◌}
use mathlib.Core.Path.{◌≡◌}
use mathlib.Core.List.{List, [], ◌++◌, append-nil}
use native.Mathlib.Omega.{arith}

take_all : (n : ℕ) (xs : List ℕ) → length xs ≡ n → take n xs ≡ xs
take_all n xs h = rw (← h) (rw append-nil at (take-append xs []))

drop_prefix : (n : ℕ) (xs ys : List ℕ) → length xs ≡ n → drop n (xs ++ ys) ≡ ys
drop_prefix n xs ys h = rw (← h) (drop-append xs ys)

pub slice_from-append :
    {E : Type 0} (n : ℕ) (xs ys : List ℕ) → length xs ≡ n → slice_from {E = E} n (xs ++ ys) ≡ ok ys
slice_from-append n xs ys h = ground (arith, length-append xs ys, drop_prefix n xs ys h)

pub slice-append :
    {E : Type 0} (n m : ℕ) (xs ys : List ℕ)
    → length xs ≡ n
    → length ys ≡ m
    → slice {E = E} n (n + m) (xs ++ ys) ≡ ok ys
slice-append n m xs ys h k =
    rw (drop_prefix n xs ys h)
      (ground (arith, length-append xs ys, take_all (n + m - n) ys (omega arith)))
