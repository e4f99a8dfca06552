-- ===== src/Client/Manage/Requests.antt =====
-- `process_request` of client/src/relay/request.rs on the mutex that `manage_connection` keeps.
use tuic.Prelude.{ℕ, ◌≡◌, ap, false, List, Option, none, some, ok}
use tuic.Client.Connection.{Connection, Env}
use tuic.Client.Request.Process.{Request, Channels, Lock, locked, serve, process_request}
use tuic.Client.Manage.{Event, run, new_relay}
use tuic.Client.Manage.Reconnect.{take_connection-run}

-- What the mutex holds, where `connections` are the connections by number.
abbrev pub content : (ℕ → Connection) → Option ℕ → Lock
content connections none = locked none
content connections (some n) = locked (some (connections n))

-- After any events in any order, a request that finds the mutex free is served on the connection in
-- it: the `unwrap` of the mutex's content does not panic.
pub process_request-run :
    (es : List Event) (env : Env) (channels : Channels) (connections : ℕ → Connection)
    (req : Request)
    → (run es new_relay).is_locked ≡ false
    → (n : ℕ) × ((run es new_relay).conn ≡ some n)
      × (process_request env channels (content connections (run es new_relay).conn) req
          ≡ ok (serve env channels req (connections n)))
unfolding process_request
process_request-run es env channels connections req u =
    let (n, here, _) = take_connection-run es u in
    (n, here, ap (λ o. process_request env channels (content connections o) req) here)
