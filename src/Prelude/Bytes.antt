-- ===== src/Prelude/Bytes.antt =====
-- Bytes, big-endian words and UTF-8, as the standard library and the crates `bytes` and
-- `byteorder` define them. A byte string is a list of numbers below 256.
use tuic.Prelude.Tests.{ltb, leb, ◌==◌, if◌then◌else◌}
use tuic.Prelude.Lists.{length, take, drop}
use tuic.Prelude.Outcome.{Result, ok, panicked}
use Prim.Native.Nat.{ℕ, ◌+◌, ◌-◌, ◌*◌, ◌/◌, ◌%◌, ◌<◌}
use mathlib.Core.Path.{◌≡◌, refl}
use mathlib.Core.Bool.{Bool, true, false, ◌&&◌}
use mathlib.Core.List.{List, [], ◌∷◌}

abbrev pub IsByte : ℕ → Type 0
IsByte b = b < 256

abbrev pub IsU16 : ℕ → Type 0
IsU16 n = n < 65536

abbrev pub IsU32 : ℕ → Type 0
IsU32 n = n < 4294967296

-- What `put_u16` and `put_u32` write.
abbrev pub be16 : ℕ → List ℕ
be16 n = (n / 256 % 256) ∷ (n % 256) ∷ []

abbrev pub be32 : ℕ → List ℕ
be32 n = (n / 16777216 % 256) ∷ (n / 65536 % 256) ∷ (n / 256 % 256) ∷ (n % 256) ∷ []

-- What the readers make of bytes in that order.
abbrev pub of_be16 : ℕ → ℕ → ℕ
of_be16 a b = a * 256 + b

abbrev pub of_be32 : ℕ → ℕ → ℕ → ℕ → ℕ
of_be32 a b c d = a * 16777216 + b * 65536 + c * 256 + d

abbrev within : ℕ → ℕ → ℕ → Bool
within lo hi b = leb lo b && leb b hi

-- `Bytes::slice(from..)` and `Bytes::slice(from..to)`, which panic out of range.
abbrev pub slice_from {κ} : {E : Type κ} → ℕ → List ℕ → Result E (List ℕ)
slice_from from bytes = if leb from (length bytes) then ok (drop from bytes) else panicked

abbrev pub slice {κ} : {E : Type κ} → ℕ → ℕ → List ℕ → Result E (List ℕ)
slice from to bytes =
    if leb from to && leb to (length bytes)
    then ok (take (to - from) (drop from bytes))
    else panicked

-- Where a validator of UTF-8 stands inside a character: how many bytes from 0x80 to 0xbf are
-- still to come, and the range of the next byte where it is narrower.
pub data Utf8State : Type 0 where
  boundary invalid : Utf8State
  one_more two_more three_more : Utf8State
  after_e0 after_ed after_f0 after_f4 : Utf8State

utf8_lead : ℕ → Utf8State
utf8_lead b =
    if ltb b 0x80
    then boundary
    else if within 0xc2 0xdf b
    then one_more
    else if b == 0xe0
    then after_e0
    else if b == 0xed
    then after_ed
    else if within 0xe1 0xef b
    then two_more
    else if b == 0xf0
    then after_f0
    else if within 0xf1 0xf3 b
    then three_more
    else if b == 0xf4
    then after_f4
    else invalid

utf8_step : Utf8State → ℕ → Utf8State
unfolding utf8_lead
utf8_step boundary b = utf8_lead b
utf8_step invalid b = invalid
utf8_step one_more b = if within 0x80 0xbf b then boundary else invalid
utf8_step two_more b = if within 0x80 0xbf b then one_more else invalid
utf8_step three_more b = if within 0x80 0xbf b then two_more else invalid
utf8_step after_e0 b = if within 0xa0 0xbf b then one_more else invalid
utf8_step after_ed b = if within 0x80 0x9f b then one_more else invalid
utf8_step after_f0 b = if within 0x90 0xbf b then two_more else invalid
utf8_step after_f4 b = if within 0x80 0x8f b then two_more else invalid

utf8_from : Utf8State → List ℕ → Bool
unfolding utf8_step
utf8_from boundary [] = true
utf8_from s [] = false
utf8_from s (b ∷ bs) = utf8_from (utf8_step s b) bs

-- `String::from_utf8` accepts exactly these.
unfoldable pub is_utf8 : List ℕ → Bool
unfolding utf8_from
is_utf8 bs = utf8_from boundary bs

is_utf8_accented : is_utf8 (0x61 ∷ 0xc3 ∷ 0xa9 ∷ 0xe2 ∷ 0x82 ∷ 0xac ∷ []) ≡ true
unfolding is_utf8
is_utf8_accented = refl

is_utf8_surrogate : is_utf8 (0xed ∷ 0xa0 ∷ 0x80 ∷ []) ≡ false
unfolding is_utf8
is_utf8_surrogate = refl
