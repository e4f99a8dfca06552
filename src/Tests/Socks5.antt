-- ===== src/Tests/Socks5.antt =====
-- Examples for client/src/socks5, and for what it leads to at the relay and the server.
use tuic.Prelude.{
  ℕ, ◌≡◌, ◌≢◌, ◌⊎◌, arith, refl, true, false, List, [], ◌∷◌, map, some, ok, panicked, success,
  failure, if◌then◌else◌,
}
use tuic.Protocol.Reader.{unexpected_eof}
use tuic.Protocol.Command.{connect, read_command}
use tuic.Server.Task as Server
use tuic.Client.Address.{to_tuic}
use tuic.Client.Task.{connect_request}
use tuic.Client.Connection as Relay
use tuic.Client.Connection.{native, new_connection}
use tuic.Client.Request.Process.{Request, Channels, locked, served, process_request}
use tuic.Client.Socks5.{
  Address, domain_address, to_relay, succeeded, network_unreachable, new_control, Env,
  handle_connect,
}
use tuic.Client.Socks5.Associate.{
  Round, control_closed, loop_panicked, overflows, handle_associate, socks5_to_relay,
}
use tuic.Client.Socks5.Handling.{Handshake, handle_connection}
use tuic.Client.Socks5.Replies.{
  IsAnswered, CanPanic, Associated, handle_connection-IsAnswered, handle_associate-reply,
}
use tuic.Client.Socks5.Forwarding.{
  unfragmented, failed, for_relay, sender, socks5_to_relay-unfragmented,
}
use tuic.EndToEnd.{any}
use tuic.EndToEnd.Socks5.{process_request-connect}
use tuic.Tests.{site, site-IsAddress, resolver, second_resolver, payload, client_env, server_env}

-- "a.b", port 80.
abbrev pub target : Address
target = domain_address (0x61 ∷ 0x2e ∷ 0x62 ∷ []) 80

abbrev env : Env
env = record {
  logs_info = true;
  peer_addr = success resolver;
  reply = success tt;
  copy_bidirectional = success tt;
  unspecified = domain_address [] 0;
  assoc_id = 7;
  local_addr = success resolver;
  bind = λ _. success tt;
  socket_addr = success second_resolver;
  ctrl_addr = success resolver;
  last_peer_addr = success resolver;
  overflow_checks = false;
  header_max_len = 262;
  max_udp_relay_packet_size = 1500;
}

handle_connection-IsAnswered_example :
    let (s, r) =
      handle_connection env true control_closed unexpected_eof
        (success (Handshake.connect target)) in
    IsAnswered env s × ((r ≢ panicked) ⊎ CanPanic env control_closed)
handle_connection-IsAnswered_example =
    handle_connection-IsAnswered env true control_closed unexpected_eof
      (success (Handshake.connect target))

-- With overflow checks and a static size of 4, an `Associate` panics once it is answered.
abbrev small : Env
small = record env { overflow_checks = true; max_udp_relay_packet_size = 4 }

small-panicked : (handle_associate small control_closed new_control).1 ≡ panicked
unfolding handle_associate
small-panicked = refl

env-fits : overflows env.header_max_len env.max_udp_relay_packet_size ≡ false
unfolding overflows
env-fits = refl

control_closed-ne-panicked : control_closed ≢ loop_panicked
control_closed-ne-panicked h = cc

handle_associate-reply_example :
    let ended = handle_associate env control_closed new_control in
    (ended.0.is_shutdown ≡ true) × Associated env control_closed env.local_addr ended
handle_associate-reply_example =
    handle_associate-reply env control_closed resolver (refl, refl, refl, refl)
      control_closed-ne-panicked env-fits (omega arith)

-- A fragment, a packet, another packet, and an error.
abbrev pub rounds : List Round
rounds =
    record {
      max_udp_relay_packet_size = 1200;
      received = success (9 ∷ [], 1, target, resolver);
      connected = success tt;
    }
    ∷ record {
      max_udp_relay_packet_size = 1200;
      received = success (payload, 0, target, resolver);
      connected = success tt;
    }
    ∷ record {
      max_udp_relay_packet_size = 1500;
      received = success (8 ∷ [], 0, target, resolver);
      connected = success tt;
    }
    ∷ record {
      max_udp_relay_packet_size = 1500;
      received = failure unexpected_eof;
      connected = success tt;
    }
    ∷ []

rounds-handed :
    (socks5_to_relay 262 1500 rounds).0.handed
    ≡ (payload, to_relay target) ∷ (8 ∷ [], to_relay target) ∷ []
unfolding socks5_to_relay
rounds-handed = refl

socks5_to_relay-unfragmented_example :
    let (s, e) = socks5_to_relay 262 1500 rounds in
    (s.handed ≡ map for_relay (unfragmented rounds))
    × (s.peer ≡ sender (unfragmented rounds))
    × (e ≡ failed rounds)
socks5_to_relay-unfragmented_example =
    socks5_to_relay-unfragmented 262 1500 rounds (refl, (refl, (refl, (refl, tt))))

abbrev pub connected : Relay.Connection
connected = new_connection native 1500 1500

abbrev pub channels : Channels
channels = record {
  answer = (Server.connect server_env (to_tuic (to_relay target))).written;
  packets = (socks5_to_relay 262 1500 rounds).0.handed;
  pkt_recv_tx = record { sent = []; open' = true };
}

pub target-site : to_tuic (to_relay target) ≡ site
unfolding to_tuic to_relay
target-site = refl

target-resolve :
    Server.resolve server_env (to_tuic (to_relay target))
    ≡ success (resolver ∷ second_resolver ∷ [])
unfolding to_tuic to_relay Server.resolve
target-resolve = refl

process_request-connect_example :
    let reachable = any server_env.tcp_connect (resolver ∷ second_resolver ∷ []) in
    let control = (handle_connect env reachable target new_control).0 in
    (read_command (connect_request (to_relay target))
      ≡ ok (connect (to_tuic (to_relay target)), []))
    × (process_request client_env channels
          (locked (some connected))
          (Request.connect (to_relay target))
        ≡ ok (served connected reachable))
    × (control.replies
        ≡ (if reachable then succeeded else network_unreachable, env.unspecified) ∷ [])
    × (control.is_joined ≡ reachable)
process_request-connect_example =
    process_request-connect server_env client_env env target resolver connected channels
      (resolver ∷ second_resolver ∷ []) (rw target-site site-IsAddress) refl refl refl
      target-resolve refl (refl, refl, refl, refl)

pub eight-seven : ◌≢◌ {A = ℕ} 8 7
eight-seven e = omega arith
