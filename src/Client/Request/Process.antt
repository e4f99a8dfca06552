-- ===== src/Client/Request/Process.antt =====
-- `process_request` of client/src/relay/request.rs.
use tuic.Prelude.{ℕ, Bool, false, List, Option, none, some, Result, ok, panicked}
use tuic.Client.Address.{Address}
use tuic.Client.Connection.{Connection, PacketSender, Env}
use tuic.Client.Task.{handle_connect}
use tuic.Client.Request as Requests

-- A `Request`, less the ends of the channels in it.
pub data Request : Type 0 where
  connect : Address → Request
  associate : (assoc_id : ℕ) → Request

-- What comes to a request through its stream and its channels: the server's answer to a `Connect`,
-- the packets of the socks5 side up to its end, and the sender of the packets that come back.
pub record Channels : Type 0 where
  pub answer : List ℕ
  pub packets : List (List ℕ × Address)
  pub pkt_recv_tx : PacketSender

-- The wait for the mutex of the connection: the timeout, or its content.
pub data Lock : Type 0 where
  elapsed : Lock
  locked : Option Connection → Lock

-- What a request did: it was given up, or it left the connection in this state, and gave the socks5
-- side a stream or not.
pub data Processed : Type 0 where
  timed_out : Processed
  served : Connection → (granted : Bool) → Processed

unfoldable pub serve : Env → Channels → Request → Connection → Processed
unfolding handle_connect Requests.associate
serve env channels (connect addr) c = served c (handle_connect env channels.answer)
serve env channels (associate assoc_id) c =
    served (Requests.associate env assoc_id channels.packets channels.pkt_recv_tx c) false

-- `process_request`; `unwrap` panics on an empty mutex.
unfoldable pub process_request : Env → Channels → Lock → Request → Result ⊥ Processed
unfolding serve
process_request env channels elapsed req = ok timed_out
process_request env channels (locked none) req = panicked
process_request env channels (locked (some c)) req = ok (serve env channels req c)
