-- ===== src/Opus/Transcode/Errors.antt =====
-- The errors of a conversion's loops.
use gunk.Base.{
  ◌≡◌, ◌∙◌, sym, refl, ap, Bool, true, not, ◌&&◌, Option, none, some, List, if◌then◌else◌, is_some,
  by_branch, arith,
}
use gunk.Base.Group.{ErrGroup, first_of, first_of-none, pair_ext, steps, tally, err-steps, same-err}
use gunk.Opus.Transcode.{
  Failure, FeedEnd, EncodeEnd, feed_result, encode_result, Job, Event, feed_ends, encode_ends,
  wait_returns, fed, encoded, exited, can_return, step,
}

-- Whether the first and the second loop still run.
abbrev pub Loops : Type 0
Loops = Bool × Bool

abbrev pub error_of : Option (Option Failure) → Option Failure
error_of none = none
error_of (some o) = o

abbrev pub fails : Loops → Event → Option Failure
fails l (feed_ends e) = if l.0 then error_of (feed_result e) else none
fails l (encode_ends e) = if l.1 then error_of (encode_result e) else none
fails l (wait_returns _) = none

abbrev pub after : Loops → Event → Loops
after l (feed_ends e) = (l.0 && not (is_some (feed_result e)), l.1)
after l (encode_ends e) = (l.0, l.1 && not (is_some (encode_result e)))
after l (wait_returns _) = l

module _ {G : Type 0} (eg : ErrGroup G Failure) where
  abbrev pub loops : Job G → Loops
  loops j = (j.feeding_runs, j.encoding_runs)

  -- A step adds what `fails` says, and moves the loops as `after` does.
  record Follows (j : Job G) (e : Event) (next : Job G) : Type 0 where
    adds : eg.err next.group ≡ first_of (eg.err j.group) (fails (j.feeding_runs, j.encoding_runs) e)
    feeding : next.feeding_runs ≡ (after (j.feeding_runs, j.encoding_runs) e).0
    encoding : next.encoding_runs ≡ (after (j.feeding_runs, j.encoding_runs) e).1

  fed-Follows :
      (e : FeedEnd) (o : Option (Option Failure)) (j : Job G)
      → feed_result e ≡ o
      → j.feeding_runs ≡ true
      → Follows j (feed_ends e) (fed eg o j)
  fed-Follows e none j is c = record {
    adds = ground (arith, is, c, first_of-none (eg.err j.group));
    feeding = ground (arith, is, c);
    encoding = ground (arith, is, c);
  }
  fed-Follows e (some o) j is c = record {
    adds = eg.err-finish o j.group ∙ ap (first_of (eg.err j.group)) (ground (arith, is, c));
    feeding = ground (arith, is, c);
    encoding = ground (arith, is, c);
  }

  encoded-Follows :
      (e : EncodeEnd) (o : Option (Option Failure)) (j : Job G)
      → encode_result e ≡ o
      → j.encoding_runs ≡ true
      → Follows j (encode_ends e) (encoded eg o j)
  encoded-Follows e none j is c = record {
    adds = ground (arith, is, c, first_of-none (eg.err j.group));
    feeding = ground (arith, is, c);
    encoding = ground (arith, is, c);
  }
  encoded-Follows e (some o) j is c = record {
    adds = eg.err-finish o j.group ∙ ap (first_of (eg.err j.group)) (ground (arith, is, c));
    feeding = ground (arith, is, c);
    encoding = ground (arith, is, c);
  }

  exited-Follows :
      (o : Option Failure) (ok : Bool) (j : Job G) → Follows j (wait_returns ok) (exited eg o ok j)
  exited-Follows none ok j = record {
    adds = eg.err-wait j.group ∙ sym (first_of-none (eg.err j.group));
    feeding = refl;
    encoding = refl;
  }
  exited-Follows (some f) ok j = record {
    adds = eg.err-wait j.group ∙ sym (first_of-none (eg.err j.group));
    feeding = refl;
    encoding = refl;
  }

  step-Follows : (j : Job G) (e : Event) → Follows j e (step eg j e)
  unfolding step
  step-Follows j (feed_ends e) =
      by_branch (Follows j (feed_ends e)) j.feeding_runs
        (λ c. fed-Follows e (feed_result e) j refl c)
        (λ c. record {
          adds = same-err eg j.group j.feeding_runs (error_of (feed_result e)) c;
          feeding = ground (arith, c);
          encoding = refl;
        })
  step-Follows j (encode_ends e) =
      by_branch (Follows j (encode_ends e)) j.encoding_runs
        (λ c. encoded-Follows e (encode_result e) j refl c)
        (λ c. record {
          adds = same-err eg j.group j.encoding_runs (error_of (encode_result e)) c;
          feeding = refl;
          encoding = ground (arith, c);
        })
  step-Follows j (wait_returns ok) =
      by_branch (Follows j (wait_returns ok)) (can_return eg j)
        (λ c. exited-Follows (eg.err j.group) ok j)
        (λ c. record {
          adds = sym (first_of-none (eg.err j.group));
          feeding = refl;
          encoding = refl;
        })

  pub err-run :
      (j : Job G) (es : List Event)
      → eg.err (steps (step eg) j es).group
        ≡ first_of (eg.err j.group) (tally fails after (loops j) es)
  err-run j es =
      err-steps eg (λ (i : Job G). i.group) loops (step eg) fails after
        (λ i e. (step-Follows i e).adds)
        (λ i e.
          let f = step-Follows i e in
          pair_ext (loops (step eg i e)) (after (loops i) e) f.feeding f.encoding)
        j es
