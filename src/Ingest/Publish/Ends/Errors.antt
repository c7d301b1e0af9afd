-- ===== src/Ingest/Publish/Ends/Errors.antt =====
-- The errors of a publication.
use gunk.Base.{
  ℕ, ◌≡◌, ◌∙◌, sym, refl, ap, Bool, false, not, ◌&&◌, Option, none, List, if◌then◌else◌, is_some,
  by_branch,
}
use gunk.Base.Group.{ErrGroup, first_of, tally, err-steps, first_of-none, ended-err, same-err}
use gunk.Ingest.Manager.{Publication}
use gunk.Ingest.Publish.{
  Failure, hls_publish, opus_conversion, copying, wrap, Run, Event, copy_ends, hls_ends, thumb,
  thumbs_end, opus_ends, context_ends, wait_returns, elsewhere, all_ended, step, run,
}

-- Whether the copying, the HLS output, the conversion and the thumbnails still run.
abbrev pub Loops : Type 0
Loops = Bool × Bool × Bool × Bool

-- What an event adds to the errors, and what runs then.
abbrev pub fails : {E : Type 0} → Loops → Event E → Option (Failure E)
fails l (copy_ends o) = if l.0 then wrap copying o else none
fails l (hls_ends o) = if l.1 then wrap hls_publish o else none
fails l (opus_ends o) = if l.2 then wrap opus_conversion o else none
fails l _ = none

abbrev pub after : {E : Type 0} → Loops → Event E → Loops
after l (copy_ends _) = (false, l.1, l.2, l.3)
after l (hls_ends _) = (l.0, false, l.2, l.3)
after l (opus_ends _) = (l.0, l.1, false, l.3)
after l thumbs_end = (l.0, l.1, l.2, false)
after l _ = l

module _ (is_audio : ℕ → Bool) (opus_type : ℕ) {G E : Type 0} (eg : ErrGroup G (Failure E)) where
  abbrev pub loops : Run G E → Loops
  loops r = (r.copies, r.hls_runs, r.converts, r.thumbs_run)

  -- A step adds what `fails` says, and moves the loops as `after` does.
  record Follows (r : Run G E) (e : Event E) (next : Run G E) : Type 0 where
    adds : eg.err next.group ≡ first_of (eg.err r.group) (fails (loops r) e)
    moves : loops next ≡ after (loops r) e

  -- A step that adds no error.
  quiet :
      {r next : Run G E} {e : Event E}
      → fails (loops r) e ≡ none
      → eg.err next.group ≡ eg.err r.group
      → loops next ≡ after (loops r) e
      → Follows r e next
  quiet {r} none_adds same moves = record {
    adds =
        same
        ∙ (sym (first_of-none (eg.err r.group)) ∙ ap (first_of (eg.err r.group)) (sym none_adds));
    moves = moves;
  }

  step-Follows :
      (p : Publication) (r : Run G E) (e : Event E) → Follows r e (step is_audio opus_type eg p r e)
  unfolding step
  step-Follows p r (copy_ends o) =
      by_branch (Follows r (copy_ends o)) r.copies
        (λ c. record { adds = ended-err eg r.group r.copies (wrap copying o) c; moves = refl })
        (λ c. record {
          adds = same-err eg r.group r.copies (wrap copying o) c;
          moves =
              ap (λ (b : Bool). let l : Loops = (b, r.hls_runs, r.converts, r.thumbs_run) in l) c;
        })
  step-Follows p r (hls_ends o) =
      by_branch (Follows r (hls_ends o)) r.hls_runs
        (λ c. record {
          adds = ended-err eg r.group r.hls_runs (wrap hls_publish o) c;
          moves = refl;
        })
        (λ c. record {
          adds = same-err eg r.group r.hls_runs (wrap hls_publish o) c;
          moves = ap (λ (b : Bool). let l : Loops = (r.copies, b, r.converts, r.thumbs_run) in l) c;
        })
  step-Follows p r (opus_ends o) =
      by_branch (Follows r (opus_ends o)) r.converts
        (λ c. record {
          adds = ended-err eg r.group r.converts (wrap opus_conversion o) c;
          moves = refl;
        })
        (λ c. record {
          adds = same-err eg r.group r.converts (wrap opus_conversion o) c;
          moves = ap (λ (b : Bool). let l : Loops = (r.copies, r.hls_runs, b, r.thumbs_run) in l) c;
        })
  step-Follows p r (thumb now has_bframes) =
      by_branch (Follows r (thumb now has_bframes)) r.thumbs_run (λ c. quiet refl refl refl)
        (λ c. quiet refl refl refl)
  step-Follows p r thumbs_end =
      by_branch (Follows r thumbs_end) r.thumbs_run
        (λ c. record { adds = eg.err-finish none r.group; moves = refl })
        (λ c.
          quiet refl refl
            (ap (λ (b : Bool). let l : Loops = (r.copies, r.hls_runs, r.converts, b) in l) c))
  step-Follows p r context_ends =
      by_branch (Follows r context_ends) (r.watches && eg.cancelled r.group)
        (λ c. quiet refl refl refl) (λ c. quiet refl refl refl)
  step-Follows p r (wait_returns now) =
      by_branch (Follows r (wait_returns now))
        (all_ended is_audio opus_type eg r && not (is_some r.outcome))
        (λ c. quiet refl (eg.err-wait r.group) refl) (λ c. quiet refl refl refl)
  step-Follows p r (elsewhere channels) = quiet refl refl refl

  -- The group's error behind some events, from any state on.
  pub err-run :
      (p : Publication) (r : Run G E) (es : List (Event E))
      → eg.err (run is_audio opus_type eg p r es).group
        ≡ first_of (eg.err r.group) (tally fails after (loops r) es)
  err-run p r es =
      err-steps eg (λ (i : Run G E). i.group) loops (step is_audio opus_type eg p) fails after
        (λ i e. (step-Follows p i e).adds) (λ i e. (step-Follows p i e).moves) r es
