-- ===== src/Client/Socks5/Handling.antt =====
-- `Socks5::run` of client/src/socks5/mod.rs: the loop that accepts connections, and what each of
-- them asks for.
use tuic.Prelude.{Bool, List, [], ◌∷◌, err, Answer, success, failure}
use tuic.Protocol.Reader.{IoError}
use tuic.Protocol.Address.{SocketAddr}
use tuic.Client.Socks5.{Address, new_control, Env, Ended, handle_connect, handle_bind}
use tuic.Client.Socks5.Associate.{Finish, handle_associate}

-- `socks5_server::Connection`, without the connection in it: what a client asks for.
pub data Handshake : Type 0 where
  connect bind associate : Address → Handshake

-- `handle_connection` of mod.rs. `granted` and `finish` are what the relay does for a `Connect` and
-- how the `select!` of an `Associate` ends, and `unsupported` the error that bind.rs makes.
unfoldable pub handle_connection :
    Env → (granted : Bool) → Finish → (unsupported : IoError) → Answer IoError Handshake → Ended
unfolding handle_connect handle_bind handle_associate
handle_connection env granted finish unsupported (failure e) = (new_control, err e)
handle_connection env granted finish unsupported (success (connect addr)) =
    handle_connect env granted addr new_control
handle_connection env granted finish unsupported (success (bind addr)) =
    handle_bind env unsupported new_control
handle_connection env granted finish unsupported (success (associate addr)) =
    handle_associate env finish new_control

-- A connection that was accepted: what the system answers to its handler, what the relay does for it
-- and what it asks for.
pub record Accepted : Type 0 where
  pub env : Env
  pub granted : Bool
  pub finish : Finish
  pub unsupported : IoError
  pub handshake : Answer IoError Handshake

-- `run`, over what `accept` answers: an error is logged, and a connection is handled.
unfoldable accept_all : List (Answer IoError Accepted) → List Ended
unfolding handle_connection
accept_all [] = []
accept_all (failure e ∷ incoming) = accept_all incoming
accept_all (success c ∷ incoming) =
    handle_connection c.env c.granted c.finish c.unsupported c.handshake ∷ accept_all incoming

unfoldable pub run : Answer IoError SocketAddr → List (Answer IoError Accepted) → List Ended
unfolding accept_all
run (success addr) incoming = accept_all incoming
run (failure e) incoming = []
