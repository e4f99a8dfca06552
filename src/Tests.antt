-- ===== src/Tests.antt =====
-- Concrete inputs for the tests and examples of the modules below.
pub mod Wire
pub mod Serving
pub mod Relaying
pub mod Settings
pub mod Starting
pub mod Login
pub mod Socks5
pub mod Streams
pub mod Delivery
pub mod Managing
pub mod Sessions
use tuic.Prelude.{
  ℕ, ◌==◌, ◌≡◌, refl, arith, Bool, true, false, List, [], ◌∷◌, ◌++◌, Option, none, some, success,
  failure,
}
use tuic.Prelude.Bytes.{is_utf8}
use tuic.Protocol.Address.Validity.{IsAddress}
use tuic.Protocol.Address.{SocketAddr, v4, Address, domain_address, socket_address}
use tuic.Protocol.Command.{Command, authenticate, connect, packet, write_command}
use tuic.Server.Task as Server
use tuic.Client.Connection as Client

-- "a.b", port 80.
abbrev pub site : Address
site = domain_address (0x61 ∷ 0x2e ∷ 0x62 ∷ []) 80

is_utf8_site : is_utf8 (0x61 ∷ 0x2e ∷ 0x62 ∷ []) ≡ true
unfolding is_utf8
is_utf8_site = refl

pub site-IsAddress : IsAddress site
site-IsAddress = (omega arith, omega arith, is_utf8_site, omega arith)

-- 10.0.0.1:53 and 10.0.0.2:53.
abbrev pub resolver : SocketAddr
resolver = v4 (record { a = 10; b = 0; c = 0; d = 1 }) 53

abbrev pub second_resolver : SocketAddr
second_resolver = v4 (record { a = 10; b = 0; c = 0; d = 2 }) 53

abbrev pub payload : List ℕ
payload = 1 ∷ 2 ∷ 3 ∷ []

abbrev pub digest : List ℕ
digest =
    0 ∷ 1 ∷ 2 ∷ 3 ∷ 4 ∷ 5 ∷ 6 ∷ 7 ∷ 8 ∷ 9 ∷ 10 ∷ 11 ∷ 12 ∷ 13 ∷ 14 ∷ 15 ∷ 16 ∷ 17 ∷ 18 ∷ 19 ∷ 20
    ∷ 21 ∷ 22 ∷ 23 ∷ 24 ∷ 25 ∷ 26 ∷ 27 ∷ 28 ∷ 29 ∷ 30 ∷ 31 ∷ []

abbrev pub wrong_digest : List ℕ
wrong_digest =
    255 ∷ 1 ∷ 2 ∷ 3 ∷ 4 ∷ 5 ∷ 6 ∷ 7 ∷ 8 ∷ 9 ∷ 10 ∷ 11 ∷ 12 ∷ 13 ∷ 14 ∷ 15 ∷ 16 ∷ 17 ∷ 18 ∷ 19 ∷ 20
    ∷ 21 ∷ 22 ∷ 23 ∷ 24 ∷ 25 ∷ 26 ∷ 27 ∷ 28 ∷ 29 ∷ 30 ∷ 31 ∷ []

abbrev pub tokens : List (List ℕ)
tokens = digest ∷ []

abbrev pub accepts_second : SocketAddr → Bool
accepts_second (v4 ip port) = ip.d == 2
accepts_second _ = false

-- A network on which everything goes well, and a name has two addresses of which the second accepts.
abbrev pub server_env : Server.Env
server_env = record {
  bind = success tt;
  lookup_host = λ _. λ _. success (resolver ∷ second_resolver ∷ []);
  tcp_connect = accepts_second;
  write_header = success tt;
  copy_bidirectional = success tt;
  open_uni = success tt;
  write_all = success tt;
  finish = success tt;
  try_send_datagram = success tt;
}

abbrev pub client_env : Client.Env
client_env = record {
  open_stream = success tt;
  write = success tt;
  finish = success tt;
  try_send_datagram = success tt;
  max_datagram_size = some 1200;
}
