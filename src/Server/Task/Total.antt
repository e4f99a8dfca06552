-- ===== src/Server/Task/Total.antt =====
-- The relay tasks of server/src/connection/task.rs do not panic.
use tuic.Prelude.{ℕ, ◌≢◌, arith, List, panicked}
use tuic.Protocol.Reader.{read_exact}
use tuic.Protocol.Address.{Address}
use tuic.Server.Udp.{SessionMap}
use tuic.Server.Task.{
  Env, connect, packet_from_uni_stream, packet_from_datagram, packet_to_uni_stream,
  packet_to_datagram,
}

pub connect-ne-panicked : (env : Env) (addr : Address) → (connect env addr).result ≢ panicked
unfolding connect
connect-ne-panicked env addr p = ground arith

pub packet_from_uni_stream-ne-panicked :
    (env : Env) (stream : List ℕ) (map : SessionMap) (assoc_id len : ℕ) (addr : Address)
    → (packet_from_uni_stream env stream map assoc_id len addr).1 ≢ panicked
unfolding packet_from_uni_stream read_exact
packet_from_uni_stream-ne-panicked env stream map assoc_id len addr p = ground arith

pub packet_from_datagram-ne-panicked :
    (env : Env) (pkt : List ℕ) (map : SessionMap) (assoc_id : ℕ) (addr : Address)
    → (packet_from_datagram env pkt map assoc_id addr).1 ≢ panicked
unfolding packet_from_datagram
packet_from_datagram-ne-panicked env pkt map assoc_id addr p = ground arith

pub packet_to_uni_stream-ne-panicked :
    (env : Env) (assoc_id : ℕ) (pkt : List ℕ) (addr : Address)
    → (packet_to_uni_stream env assoc_id pkt addr).1 ≢ panicked
unfolding packet_to_uni_stream
packet_to_uni_stream-ne-panicked env assoc_id pkt addr p = ground arith

pub packet_to_datagram-ne-panicked :
    (env : Env) (assoc_id : ℕ) (pkt : List ℕ) (addr : Address)
    → (packet_to_datagram env assoc_id pkt addr).1 ≢ panicked
unfolding packet_to_datagram
packet_to_datagram-ne-panicked env assoc_id pkt addr p = ground arith
