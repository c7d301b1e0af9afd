-- ===== src/Web/Session/Closing.antt =====
-- How a websocket's connection ends.
use gunk.Base.{
  ◌≡◌, ◌⊎◌, inl, inr, ◌∙◌, sym, refl, ap, Bool, true, false, not, ◌&&◌, ◌||◌, Option, none, some,
  List, [], ◌∷◌, is_some, by_branch, arith,
}
use gunk.Base.Group.{ErrGroup, cancels-finish, waited-cancels, first_of, tally}
use gunk.Web.Session.{
  SocketError, send_error, drain_loop, Session, Event, drain_ends, send_ends, request_ends,
  context_ends, wait_returns, is_logged, new_session, is_done, drained, all_ended, step, run,
}
use gunk.Web.Session.Errors.{fails, after, err-run}

module _ {G : Type 0} (eg : ErrGroup G SocketError) where
  -- What holds at any time.
  record Holds (s : Session G) : Type 0 where
    drain_errs : (s.drains || is_some (eg.err s.group)) ≡ true
    cancels : (not (is_some (eg.err s.group)) || eg.cancelled s.group) ≡ true
    closes : (s.watches || s.conn_closed) ≡ true
    returned : (s.outcome ≡ none) ⊎ ((all_ended eg s ≡ true) × (s.outcome ≡ some (eg.err s.group)))
    logs : s.logged ≡ (elim s.outcome [ none ↦ false | some o ↦ is_logged o ])

  going-outcome : (s : Session G) → Holds s → all_ended eg s ≡ false → s.outcome ≡ none
  going-outcome s h goes = elim h.returned [
    | inl o ↦ o
    | inr (ended, _) ↦ absurd (ground (arith, ended, goes))
  ]

  finish-errs :
      (o : Option SocketError) (d : Bool) (g : G)
      → (d || is_some (eg.err g)) ≡ true
      → (d || is_some (eg.err (eg.finish o g))) ≡ true
  finish-errs o d g h = rw (eg.err-finish o g) (go d (eg.err g) o h)
    where
      go :
          (d : Bool) (a o : Option SocketError)
          → (d || is_some a) ≡ true
          → (d || is_some (first_of a o)) ≡ true
      go true a o h = refl
      go false none o h = absurd (ground (arith, h))
      go false (some e) o h = refl

  error-errs : (e : SocketError) (g : G) → is_some (eg.err (eg.finish (some e) g)) ≡ true
  error-errs e g = rw (eg.err-finish (some e) g) (go (eg.err g))
    where
      go : (a : Option SocketError) → is_some (first_of a (some e)) ≡ true
      go none = refl
      go (some b) = refl

  drained-Holds :
      (o : Option SocketError) (s : Session G) → Holds s → s.drains ≡ true → Holds (drained eg o s)
  drained-Holds none s h c = h
  drained-Holds (some e) s h c = record {
    drain_errs = error-errs e s.group;
    cancels = cancels-finish eg (some e) s.group h.cancels;
    closes = h.closes;
    returned = inl (going-outcome s h (ground (arith, c)));
    logs = h.logs;
  }

  step-Holds : (s : Session G) (e : Event) → Holds s → Holds (step eg s e)
  unfolding step
  step-Holds s (drain_ends rounds) h =
      by_branch Holds s.drains (λ c. drained-Holds (drain_loop rounds) s h c) (λ c. h)
  step-Holds s (send_ends o) h =
      by_branch Holds s.sends
        (λ c. record {
          drain_errs = finish-errs (send_error o) s.drains s.group h.drain_errs;
          cancels = cancels-finish eg (send_error o) s.group h.cancels;
          closes = h.closes;
          returned = inl (going-outcome s h (ground (arith, c)));
          logs = h.logs;
        })
        (λ c. h)
  step-Holds s request_ends h = record {
    drain_errs = h.drain_errs;
    cancels = h.cancels;
    closes = h.closes;
    returned = h.returned;
    logs = h.logs;
  }
  step-Holds s context_ends h =
      by_branch Holds (s.watches && is_done eg s)
        (λ c. record {
          drain_errs = finish-errs none s.drains s.group h.drain_errs;
          cancels = cancels-finish eg none s.group h.cancels;
          closes = refl;
          returned = inl (going-outcome s h (ground (arith, c)));
          logs = h.logs;
        })
        (λ c. h)
  step-Holds s wait_returns h =
      by_branch Holds (all_ended eg s && not (is_some s.outcome))
        (λ c. record {
          drain_errs = rw (eg.err-wait s.group) h.drain_errs;
          cancels = waited-cancels eg s.group;
          closes = h.closes;
          returned = inr (ground (arith, c), ap some (sym (eg.err-wait s.group)));
          logs = refl;
        })
        (λ c. h)

  run-Holds : (s : Session G) (es : List Event) → Holds s → Holds (run eg s es)
  run-Holds s [] h = h
  run-Holds s (e ∷ es) h = run-Holds (step eg s e) es (step-Holds s e h)

  new-Holds : Holds (new_session eg)
  new-Holds = record {
    drain_errs = refl;
    cancels = rw eg.err-fresh refl;
    closes = refl;
    returned = inl refl;
    logs = refl;
  }

  some_inj : {a b : Option SocketError} → some a ≡ some b → a ≡ b
  some_inj e = cc

  settle :
      (s : Session G) (o : Option SocketError) {f : Option SocketError}
      → Holds s
      → s.outcome ≡ some o
      → eg.err s.group ≡ f
      → (o ≡ f) × (is_some o ≡ true) × (s.conn_closed ≡ true) × (s.logged ≡ is_logged o)
  settle s o h returns f = elim h.returned [
    | inl running ↦ absurd (ground (arith, running, returns))
    | inr (ended, err) ↦
        let same : o ≡ eg.err s.group = some_inj (sym returns ∙ err) in
        let errs = h.drain_errs in
        let closes = h.closes in
        let some_err : is_some (eg.err s.group) ≡ true = ground (arith, ended, errs) in
        (
          same ∙ f,
          ap is_some same ∙ some_err,
          ground (arith, ended, closes),
          h.logs
              ∙ ap {A = Option (Option SocketError)}
                  (λ x. elim x [ none ↦ false | some y ↦ is_logged y ]) returns,
        )
  ]

  err-new :
      (es : List Event)
      → eg.err (run eg (new_session eg) es).group ≡ tally fails after (true, true) es
  err-new es = err-run eg (new_session eg) es ∙ rw eg.err-fresh refl

  still :
      (s : Session G) (f : Option SocketError)
      → eg.err s.group ≡ f
      → (is_some f || s.request_done) ≡ true
      → (s.watches || s.conn_closed) ≡ true
      → (not (is_some (eg.err s.group)) || eg.cancelled s.group) ≡ true
      → (s.watches && is_done eg s) ≡ false
      → s.conn_closed ≡ true
  still s f e gone closes cancels idle =
      let some_err : is_some (eg.err s.group) ≡ is_some f = ap is_some e in
      ground (arith, some_err, gone, closes, cancels, idle)

  -- However the goroutines of a websocket are interleaved: once all have ended, the connection is
  -- closed, and the error is the first one of drainLoop and sendLoop, of which there always is one;
  -- it is logged exactly if it is not io.EOF.
  pub session_ends :
      (es : List Event) (o : Option SocketError)
      → (run eg (new_session eg) es).outcome ≡ some o
      → (o ≡ tally fails after (true, true) es)
        × (is_some o ≡ true)
        × ((run eg (new_session eg) es).conn_closed ≡ true)
        × ((run eg (new_session eg) es).logged ≡ is_logged o)
  session_ends es o returns =
      settle (run eg (new_session eg) es) o (run-Holds (new_session eg) es new-Holds) returns
        (err-new es)

  -- As soon as the client is gone, a write has failed, the listener has been dropped or the request
  -- is over, the connection is closed by the next step of the goroutine that waits for it, if it is
  -- not closed already.
  pub gone_closes :
      (es : List Event)
      → (is_some (tally fails after (true, true) es) || (run eg (new_session eg) es).request_done)
        ≡ true
      → (step eg (run eg (new_session eg) es) context_ends).conn_closed ≡ true
  unfolding step
  gone_closes es gone =
      let s = run eg (new_session eg) es in
      let h = run-Holds (new_session eg) es new-Holds in
      let closes = h.closes in
      let cancels = h.cancels in
      by_branch (λ (next : Session G). next.conn_closed ≡ true) (s.watches && is_done eg s)
        (λ c. refl)
        (λ c. still s (tally fails after (true, true) es) (err-new es) gone closes cancels c)
