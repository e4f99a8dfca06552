-- ===== src/Client/Request.antt =====
-- client/src/relay/request.rs: the requests of the socks5 side, and the count of waiting requests
-- that `manage_connection` starts a connection by.
pub mod Process
pub mod Waiting
pub mod Associate
pub mod Listen
use tuic.Prelude.{
  ℕ, ◌+◌, ◌-◌, ◌≡◌, ◌<◌, refl, arith, ltb, Bool, true, false, List, [], ◌∷◌, ◌++◌, Option, none,
  some, if◌then◌else◌, append_assoc, append-nil,
}
use tuic.Prelude.Table.{lookup, remove, lookup-remove, lookup-insert}
use tuic.Protocol.Command.{dissociate, write_command}
use tuic.Client.Address.{Address}
use tuic.Client.Connection.{
  Connection, UdpRelayMode, PacketSender, SessionMap, Env, Wire, insert_session, remove_session,
}
use tuic.Client.Task.{frame, handle_packet_to, handle_dissociate}

-- A `Register` and the `Wait` on it: the strong count of their `Arc`, one for `listen_requests` and
-- one for each request under way, and the waker that `Wait` left.
pub record Register : Type 0 where
  pub count : ℕ
  pub waker : Option ℕ

-- `Register::new`.
unfoldable pub new_register : Register
new_register = record { count = 1; waker = none }

-- `Clone`: the new state and the task that is woken.
unfoldable pub clone_register : Register → Register × Option ℕ
clone_register r = (record { count = r.count + 1; waker = none }, r.waker)

unfoldable pub drop_register : Register → Register
drop_register r = record r { count = r.count - 1 }

-- The two halves of `Wait::poll`, between which another thread can run: the read of the count, and
-- the write of the waker.
unfoldable pub is_requested : Register → Bool
is_requested r = ltb 1 r.count

unfoldable pub leave_waker : ℕ → Register → Register
leave_waker task r = if ltb 0 r.count then record r { waker = some task } else r

-- `Wait::poll`, and whether it is ready.
unfoldable pub poll_wait : ℕ → Register → Register × Bool
unfolding is_requested leave_waker
poll_wait task r = if is_requested r then (r, true) else (leave_waker task r, false)

-- The packets of the loop in `process_request`, as its tasks run one after the other.
unfoldable pub send_packets : Env → ℕ → List (List ℕ × Address) → Connection → Connection
send_packets env assoc_id [] c = c
send_packets env assoc_id ((pkt, addr) ∷ ps) c =
    send_packets env assoc_id ps (handle_packet_to env assoc_id pkt addr c.udp_relay_mode c)

-- The branch of `process_request` for an `Associate` request.
unfoldable pub associate :
    Env → ℕ → List (List ℕ × Address) → PacketSender → Connection → Connection
unfolding insert_session remove_session send_packets
associate env assoc_id packets tx c =
    let opened = record c { udp_sessions = (insert_session assoc_id tx c.udp_sessions).0 } in
    let used = send_packets env assoc_id packets opened in
    let closed = record used { udp_sessions = (remove_session assoc_id used.udp_sessions).0 } in
    handle_dissociate env assoc_id closed
