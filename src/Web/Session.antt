-- ===== src/Web/Session.antt =====
-- web/ws.go: ServeHTTP of the websockets, one connection with its three goroutines. The group of
-- goroutines is a parameter; how sendLoop ends is what Listeners makes of it.
pub mod Errors
pub mod Closing
use gunk.Base.{
  ℕ, ◌≡◌, Bool, true, false, not, ◌&&◌, ◌||◌, Option, none, some, List, [], ◌∷◌, if◌then◌else◌,
  is_some,
}
use gunk.Base.Group.{ErrGroup, steps}
use gunk.Web.Listeners.{Outcome, cancelled, dropped, greeting_failed, write_failed}

pub data SocketError : Type 0 where
  eof : SocketError
  reading : SocketError
  greeting : SocketError
  writing : SocketError

-- What sendLoop returns.
abbrev pub send_error : Outcome → Option SocketError
send_error cancelled = none
send_error dropped = some eof
send_error greeting_failed = some greeting
send_error write_failed = some writing

-- conn.NextReader: a message, the close of a client that goes away, or another error.
pub data NextReader : Type 0 where
  message : NextReader
  going_away : NextReader
  read_fails : NextReader

-- drainLoop. Each round has whether the context is done, before and behind the read. `none` while
-- it goes on.
unfoldable pub drain_loop : List (Bool × NextReader × Bool) → Option SocketError
drain_loop [] = none
drain_loop ((true, _, _) ∷ _) = some eof
drain_loop ((false, message, _) ∷ rounds) = drain_loop rounds
drain_loop ((false, going_away, _) ∷ _) = some eof
drain_loop ((false, read_fails, true) ∷ _) = some eof
drain_loop ((false, read_fails, false) ∷ _) = some reading

-- Which goroutines run: drainLoop, sendLoop, and the one that closes the connection.
pub record Session (G : Type 0) : Type 0 where
  pub group : G
  pub drains : Bool
  pub sends : Bool
  pub watches : Bool
  pub request_done : Bool
  pub conn_closed : Bool
  pub outcome : Option (Option SocketError)
  pub logged : Bool

pub data Event : Type 0 where
  drain_ends : List (Bool × NextReader × Bool) → Event
  send_ends : Outcome → Event
  request_ends : Event
  context_ends : Event
  wait_returns : Event

-- `err != nil && err != io.EOF`
abbrev pub is_logged : Option SocketError → Bool
is_logged none = false
is_logged (some eof) = false
is_logged (some reading) = true
is_logged (some greeting) = true
is_logged (some writing) = true

module _ {G : Type 0} (eg : ErrGroup G SocketError) where
  -- ServeHTTP behind the upgrade, at Wait.
  abbrev pub new_session : Session G
  new_session = record {
    group = eg.fresh;
    drains = true;
    sends = true;
    watches = true;
    request_done = false;
    conn_closed = false;
    outcome = none;
    logged = false;
  }

  abbrev pub is_done : Session G → Bool
  is_done s = eg.cancelled s.group || s.request_done

  abbrev pub drained : Option SocketError → Session G → Session G
  drained none s = s
  drained (some e) s = record s { group = eg.finish (some e) s.group; drains = false }

  abbrev pub all_ended : Session G → Bool
  all_ended s = not (s.drains || (s.sends || s.watches))

  unfoldable pub step : Session G → Event → Session G
  unfolding drain_loop
  step s (drain_ends rounds) =
      let ended = drained (drain_loop rounds) s in if s.drains then ended else s
  step s (send_ends o) =
      let ended : Session G = record s {
        group = eg.finish (send_error o) s.group;
        sends = false;
      } in
      if s.sends then ended else s
  step s request_ends = record s { request_done = true }
  step s context_ends =
      let closed : Session G = record s {
        group = eg.finish none s.group;
        watches = false;
        conn_closed = true;
      } in
      if s.watches && is_done s then closed else s
  step s wait_returns =
      let returned : Session G = record s {
        group = eg.wait s.group;
        outcome = some (eg.err s.group);
        logged = is_logged (eg.err s.group);
      } in
      if all_ended s && not (is_some s.outcome) then returned else s

  abbrev pub run : Session G → List Event → Session G
  run = steps step
