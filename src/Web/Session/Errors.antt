-- ===== src/Web/Session/Errors.antt =====
-- The errors of a websocket's two loops.
use gunk.Base.{
  ◌≡◌, inl, inr, ◌∙◌, sym, refl, ap, Bool, true, false, not, ◌&&◌, Option, none, some, List,
  if◌then◌else◌, is_some, by_branch, Option-cases, arith,
}
use gunk.Base.Group.{
  ErrGroup, first_of, pair_ext, tally, err-steps, first_of-none, ended-err, same-err,
}
use gunk.Web.Session.{
  SocketError, send_error, NextReader, drain_loop, Session, Event, drain_ends, send_ends,
  request_ends, context_ends, wait_returns, is_done, drained, all_ended, step, run,
}

-- Whether drainLoop and sendLoop still run.
abbrev pub Loops : Type 0
Loops = Bool × Bool

-- What an event adds to the errors, and which loops run then.
abbrev pub fails : Loops → Event → Option SocketError
fails l (drain_ends rounds) = if l.0 then drain_loop rounds else none
fails l (send_ends o) = if l.1 then send_error o else none
fails l _ = none

abbrev pub after : Loops → Event → Loops
after l (drain_ends rounds) = (l.0 && not (is_some (drain_loop rounds)), l.1)
after l (send_ends _) = (l.0, false)
after l _ = l

module _ {G : Type 0} (eg : ErrGroup G SocketError) where
  record Follows (s : Session G) (e : Event) (next : Session G) : Type 0 where
    err : eg.err next.group ≡ first_of (eg.err s.group) (fails (s.drains, s.sends) e)
    drains : next.drains ≡ (after (s.drains, s.sends) e).0
    sends : next.sends ≡ (after (s.drains, s.sends) e).1

  drained-Follows :
      (rounds : List (Bool × NextReader × Bool)) (s : Session G)
      → s.drains ≡ true
      → Follows s (drain_ends rounds) (drained eg (drain_loop rounds) s)
  drained-Follows rounds s c = elim (Option-cases (drain_loop rounds)) [
    | inl goes ↦ rw goes (record {
      err = ground (arith, c, goes, first_of-none (eg.err s.group));
      drains = ground (arith, c, goes);
      sends = refl;
    })
    | inr (e, ends) ↦ rw ends (record {
      err =
          eg.err-finish (some e) s.group ∙ ap (first_of (eg.err s.group)) (ground (arith, c, ends));
      drains = ground (arith, c, ends);
      sends = refl;
    })
  ]

  step-Follows : (s : Session G) (e : Event) → Follows s e (step eg s e)
  unfolding step
  step-Follows s (drain_ends rounds) =
      by_branch (Follows s (drain_ends rounds)) s.drains (λ c. drained-Follows rounds s c)
        (λ c. record {
          err = same-err eg s.group s.drains (drain_loop rounds) c;
          drains = ground (arith, c);
          sends = refl;
        })
  step-Follows s (send_ends o) =
      by_branch (Follows s (send_ends o)) s.sends
        (λ c. record {
          err = ended-err eg s.group s.sends (send_error o) c;
          drains = refl;
          sends = refl;
        })
        (λ c. record {
          err = same-err eg s.group s.sends (send_error o) c;
          drains = refl;
          sends = c;
        })
  step-Follows s request_ends = record {
    err = sym (first_of-none (eg.err s.group));
    drains = refl;
    sends = refl;
  }
  step-Follows s context_ends =
      by_branch (Follows s context_ends) (s.watches && is_done eg s)
        (λ c. record { err = eg.err-finish none s.group; drains = refl; sends = refl })
        (λ c. record { err = sym (first_of-none (eg.err s.group)); drains = refl; sends = refl })
  step-Follows s wait_returns =
      by_branch (Follows s wait_returns) (all_ended eg s && not (is_some s.outcome))
        (λ c. record {
          err = eg.err-wait s.group ∙ sym (first_of-none (eg.err s.group));
          drains = refl;
          sends = refl;
        })
        (λ c. record { err = sym (first_of-none (eg.err s.group)); drains = refl; sends = refl })

  abbrev pub loops : Session G → Loops
  loops s = (s.drains, s.sends)

  pub err-run :
      (s : Session G) (es : List Event)
      → eg.err (run eg s es).group ≡ first_of (eg.err s.group) (tally fails after (loops s) es)
  err-run s es =
      err-steps eg (λ (i : Session G). i.group) loops (step eg) fails after
        (λ i e. (step-Follows i e).err)
        (λ i e.
          let f = step-Follows i e in
          pair_ext (loops (step eg i e)) (after (loops i) e) f.drains f.sends)
        s es
