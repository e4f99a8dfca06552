-- ===== src/Settings.antt =====
-- What client/src/config.rs and server/src/config.rs share: the values of settings, the parsing of
-- numbers and of names, and the choice between a flag and what is under it. A string is its bytes.
pub mod Files
pub mod Laws
use tuic.Prelude.{
  ℕ, ◌+◌, ◌-◌, ◌*◌, Bool, true, false, ◌&&◌, List, [], ◌∷◌, Option, none, some, Result, ok, err,
  panicked, ltb, leb, ◌==◌, if◌then◌else◌,
}
use tuic.Protocol.Address.{Ipv4Addr, Ipv6Addr, SocketAddr}
use tuic.Protocol.Address as Addr

pub data IpAddr : Type 0 where
  v4 : Ipv4Addr → IpAddr
  v6 : Ipv6Addr → IpAddr

-- `log::LevelFilter`.
pub data LevelFilter : Type 0 where
  off error warn info debug trace : LevelFilter

-- The decimal digits of a number behind the value `acc` of those before them.
unfoldable pub parse_digits : ℕ → List ℕ → Option ℕ
parse_digits acc [] = some acc
parse_digits acc (c ∷ cs) =
    let rest = parse_digits (acc * 10 + (c - 48)) cs in if leb 48 c && leb c 57 then rest else none

abbrev in_range {κ} : {E : Type κ} → E → ℕ → Option ℕ → Result E ℕ
in_range e bound none = err e
in_range e bound (some n) = if ltb n bound then ok n else err e

-- `str::parse` to an unsigned integer below `bound`: a sign `+` may stand before the digits.
-- Anything else is the error `e`.
unfoldable pub parse_below {κ} : {E : Type κ} → E → ℕ → List ℕ → Result E ℕ
unfolding parse_digits
parse_below e bound [] = err e
parse_below e bound (c ∷ []) = in_range e bound (parse_digits 0 (c ∷ []))
parse_below e bound (c ∷ d ∷ cs) =
    if c == 43
    then in_range e bound (parse_digits 0 (d ∷ cs))
    else in_range e bound (parse_digits 0 (c ∷ d ∷ cs))

abbrev lower : ℕ → ℕ
lower c = if leb 65 c && leb c 90 then c + 32 else c

-- `str::eq_ignore_ascii_case`.
unfoldable pub eq_ignore_ascii_case : List ℕ → List ℕ → Bool
eq_ignore_ascii_case [] [] = true
eq_ignore_ascii_case [] (d ∷ ds) = false
eq_ignore_ascii_case (c ∷ cs) [] = false
eq_ignore_ascii_case (c ∷ cs) (d ∷ ds) = lower c == lower d && eq_ignore_ascii_case cs ds

-- "cubic", "new_reno", "newreno" and "bbr".
abbrev pub cubic_name : List ℕ
cubic_name = 99 ∷ 117 ∷ 98 ∷ 105 ∷ 99 ∷ []

abbrev pub new_reno_name : List ℕ
new_reno_name = 110 ∷ 101 ∷ 119 ∷ 95 ∷ 114 ∷ 101 ∷ 110 ∷ 111 ∷ []

abbrev pub newreno_name : List ℕ
newreno_name = 110 ∷ 101 ∷ 119 ∷ 114 ∷ 101 ∷ 110 ∷ 111 ∷ []

abbrev pub bbr_name : List ℕ
bbr_name = 98 ∷ 98 ∷ 114 ∷ []

-- A flag where it is given, and else the value there was.
unfoldable pub override {ℓ κ} :
    {E : Type κ} {A : Type ℓ} → (List ℕ → Result E A) → Option (List ℕ) → A → Result E A
override parse none before = ok before
override parse (some s) before = parse s

abbrev pub or_else {ℓ} : {A : Type ℓ} → Option A → Option A → Option A
or_else none b = b
or_else (some a) b = some a

abbrev pub choose_list {ℓ} : {A : Type ℓ} → List A → List A → List A
choose_list [] before = before
choose_list (x ∷ xs) before = x ∷ xs

abbrev pub unwrap_option {ℓ κ} : {E : Type κ} {A : Type ℓ} → Option A → Result E A
unwrap_option none = panicked
unwrap_option (some a) = ok a

-- `SocketAddr::from` of an address and a port.
abbrev pub socket_addr : IpAddr → ℕ → SocketAddr
socket_addr (v4 ip) port' = Addr.v4 ip port'
socket_addr (v6 ip) port' = Addr.v6 ip port' 0 0
