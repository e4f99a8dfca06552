-- ===== src/Server/Connection/Tasks.antt =====
-- The invariant of a connection of server/src/connection/mod.rs, and that its tasks keep it.
use tuic.Prelude.{
  ℕ, ◌+◌, ◌∙◌, sym, ap, ◌≡◌, ◌≢◌, refl, arith, Bool, true, List, [], ◌∷◌, none, some, ok, err,
  panicked, All,
}
use tuic.Prelude.Bytes.{IsByte}
use tuic.Prelude.Table.{lookup, insert, remove}
use tuic.Protocol.Command.{Command}
use tuic.Server.Authenticate.{IsAuthenticated, Poll, ready, pending, poll_authenticated}
use tuic.Server.Task.{Env}
use tuic.Server.Dispatch.{Connection, Outcome, Progress, done, waiting}
use tuic.Server.Connection.{
  Task, System, Event, datagram_arrived, finish, after_handler, panic_count, task_body, with_auth,
  after_poll, poll_task, start,
}
use tuic.Server.Connection.Handlers.{Started, task_body-ne-panicked, task_body-mode}
use tuic.Server.Connection.Guarded.{authed, IsGuarded, IsReady, task_body-IsGuarded}

abbrev pub AllReady : List (ℕ × Task) → Type 0
AllReady tasks = All (λ e. IsReady e.1) tasks

-- Every waiting task is ready, a packet is in the channel only where there is a relay mode, and no
-- task has panicked.
pub record Inv (s : System) : Type 0 where
  pub guarded : IsGuarded s.conn
  pub ready : AllReady s.tasks
  pub fed : s.conn.udp_packet_from ≡ none → s.received ≡ []
  pub calm : s.panics ≡ 0

-- Events that carry bytes.
abbrev pub IsEvent : Event → Type 0
IsEvent (datagram_arrived bytes) = All IsByte bytes
IsEvent _ = Unit {0}

AllReady-remove : (id : ℕ) (tasks : List (ℕ × Task)) → AllReady tasks → AllReady (remove id tasks)
AllReady-remove id [] h = tt
AllReady-remove id ((i, t) ∷ tasks) h = ground (arith, AllReady-remove id tasks)

AllReady-insert :
    (id : ℕ) (task : Task) (tasks : List (ℕ × Task))
    → IsReady task
    → AllReady tasks
    → AllReady (insert id task tasks)
AllReady-insert id task [] r h = (r, tt)
AllReady-insert id task ((i, t) ∷ tasks) r h = ground (arith, AllReady-insert id task tasks)

pub AllReady-lookup :
    (id : ℕ) (task : Task) (tasks : List (ℕ × Task))
    → AllReady tasks
    → lookup id tasks ≡ some task
    → IsReady task
AllReady-lookup id task [] h e = cc
AllReady-lookup id task ((i, t) ∷ tasks) h e = ground (arith, AllReady-lookup id task tasks)

finish-IsGuarded : (o : Outcome) (c : Connection) → IsGuarded c → IsGuarded (finish o c)
unfolding finish
finish-IsGuarded (ok _) c g = g
finish-IsGuarded (err e) c g = ground arith
finish-IsGuarded panicked c g = g

finish-mode : (o : Outcome) (c : Connection) → (finish o c).udp_packet_from ≡ c.udp_packet_from
unfolding finish
finish-mode (ok _) c = refl
finish-mode (err e) c = refl
finish-mode panicked c = refl

panic_count-zero : (o : Outcome) → o ≢ panicked → panic_count o ≡ 0
panic_count-zero (ok _) h = refl
panic_count-zero (err e) h = refl
panic_count-zero panicked h = absurd (h refl)

-- The end of a handler.
pub after_handler-Inv :
    (s : System) (c : Connection) (o : Outcome)
    → IsGuarded c
    → AllReady s.tasks
    → (c.udp_packet_from ≡ none → s.received ≡ [])
    → s.panics ≡ 0
    → o ≢ panicked
    → Inv (after_handler s (c, o))
after_handler-Inv s c o g r f p h = record {
  guarded = finish-IsGuarded o c g;
  ready = r;
  fed = λ e. f (sym (finish-mode o c) ∙ e);
  calm = omega (arith, panic_count-zero o h);
}

-- A poll changes no flag, and says `true` only where the authentication was seen.
pub poll_answers :
    (id : ℕ) (a : IsAuthenticated)
    → ((poll_authenticated id a).0.is_authenticated ≡ a.is_authenticated)
      × ((poll_authenticated id a).1 ≡ ready true → a.is_authenticated ≡ true)
unfolding poll_authenticated
poll_answers id a = ground arith

pub with_auth-Inv :
    (auth : IsAuthenticated) (s : System)
    → auth.is_authenticated ≡ authed s.conn
    → Inv s
    → Inv (with_auth auth s)
with_auth-Inv auth s e v = ground arith

after_poll-Inv :
    (env : Env) (id : ℕ) (task : Task) (auth : IsAuthenticated) (answer : Poll Bool) (s : System)
    → auth.is_authenticated ≡ authed s.conn
    → (answer ≡ ready true → authed s.conn ≡ true)
    → IsReady task
    → Inv s
    → Inv (after_poll env id task (auth, answer) s)
unfolding after_poll
after_poll-Inv env id task auth (ready b) s e a r v =
    let polled : System = with_auth auth s in
    let held : Inv polled = with_auth-Inv auth s e v in
    after_handler-Inv (record polled { tasks = remove id s.tasks })
      (task_body env b task polled.conn).0 (task_body env b task polled.conn).1
      (task_body-IsGuarded env b task polled.conn (λ q. e ∙ a (ap ready q)) held.guarded)
      (AllReady-remove id s.tasks v.ready) (λ q. v.fed (task_body-mode env b task polled.conn q))
      v.calm (task_body-ne-panicked env b task polled.conn r)
after_poll-Inv env id task auth pending s e a r v =
    with_auth-Inv auth (record s { tasks = insert id task s.tasks }) e
      (record {
        guarded = v.guarded;
        ready = AllReady-insert id task s.tasks r v.ready;
        fed = v.fed;
        calm = v.calm;
      })

pub poll_task-Inv :
    (env : Env) (id : ℕ) (task : Task) (s : System)
    → IsReady task
    → Inv s
    → Inv (poll_task env id task s)
unfolding poll_task
poll_task-Inv env id task s r v =
    let (same, sound) = poll_answers id s.conn.is_authenticated in
    let p = poll_authenticated id s.conn.is_authenticated in
    after_poll-Inv env id task p.0 p.1 s same sound r v

pub start-Inv :
    (env : Env) (make : Command × List ℕ → Task) (c : Connection) (p : Progress (Command × List ℕ))
    (s : System)
    → Started make (c, p)
    → (c.udp_packet_from ≡ none → s.conn.udp_packet_from ≡ none)
    → Inv s
    → Inv (start env make (c, p) s)
unfolding start
start-Inv env make c (done o) s (g, h) m v =
    after_handler-Inv s c o g v.ready (λ e. v.fed (m e)) v.calm h
start-Inv env make c (waiting read) s (g, h) m v =
    poll_task-Inv env s.next_task (make read) (record s { conn = c; next_task = s.next_task + 1 }) h
      (record { guarded = g; ready = v.ready; fed = λ e. v.fed (m e); calm = v.calm })
