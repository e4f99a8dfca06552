-- ===== src/Client/Stream.antt =====
-- `Register` and `Registry` of client/src/relay/stream.rs: the reference count by which a connection
-- knows of its open streams.
pub mod Send
pub mod Bi
pub mod Ends
use tuic.Prelude.{ℕ, ◌+◌, ◌-◌, Bool, Option, none, some, ◌==◌, if◌then◌else◌}

-- The strong count of the `Arc`. The connection holds one reference, each stream another.
abbrev pub Register : Type 0
Register = ℕ

-- `Register::new`.
abbrev pub new_register : Register
new_register = 1

-- `Clone` of a register, for a new stream, and the drop of a stream.
unfoldable pub clone_register : Register → Register
clone_register count = count + 1

unfoldable pub drop_register : Register → Register
drop_register count = count - 1

-- `Registry::get_register`: the weak reference is good while any strong one is left.
unfoldable pub get_register : Register → Option Register
get_register count = if count == 0 then none else some (count + 1)

-- `Connection::no_active_stream` of client/src/relay/connection.rs.
unfoldable pub no_active_stream : Register → Bool
no_active_stream count = count == 1
