-- ===== src/Ingest/Publish/Ends.antt =====
-- How a publication ends.
pub mod Errors
pub mod Result
pub mod Announced
pub mod Leak
use gunk.Base.{
  ℕ, ◌≡◌, ◌⊎◌, inl, inr, ◌∙◌, sym, refl, ap, Bool, true, false, not, ◌&&◌, ◌||◌, Option, none, some,
  List, [], ◌∷◌, if◌then◌else◌, is_some, by_branch, arith,
}
use gunk.Base.Group.{ErrGroup, or_true, cancels-finish, waited-cancels}
use gunk.Ingest.Manager.{
  Publication, Manager, Error, setting_up_grabber, begin_with, end_publish, on_thumb,
}
use gunk.Ingest.Publish.{
  Failure, starting, hls_publish, opus_conversion, copying, wrap, Run, Event, copy_ends, hls_ends,
  thumb, thumbs_end, opus_ends, context_ends, wait_returns, elsewhere, needs_opus, start, all_ended,
  returned, step, run, copy_ended, hls_ended, thumbs_ended, opus_ended,
}

module _ (is_audio : ℕ → Bool) (opus_type : ℕ) {G E : Type 0} (eg : ErrGroup G (Failure E)) where
  -- Whether Publish has returned; if so, nothing of the group runs and the error is the group's.
  pub record Settled (n : Bool) (r : Run G E) : Type 0 where
    pub settled :
        (r.outcome ≡ none)
        ⊎ ((all_ended is_audio opus_type eg r ≡ true) × (r.outcome ≡ some (eg.err r.group)))
    pub closed : (r.copies || r.q_closed) ≡ true
    pub opus : (not n || (r.converts || r.opus_closed)) ≡ true
    pub cancels : (not (is_some (eg.err r.group)) || eg.cancelled r.group) ≡ true
    pub watched : (r.watches || r.q_closed) ≡ true

  pub going-outcome :
      (n : Bool) (r : Run G E)
      → Settled n r
      → all_ended is_audio opus_type eg r ≡ false
      → r.outcome ≡ none
  going-outcome n r s goes = elim s.settled [
    | inl o ↦ o
    | inr (ended, _) ↦ absurd (ground (arith, ended, goes))
  ]

  pub step-Settled :
      (n : Bool) (p : Publication) (r : Run G E) (e : Event E)
      → Settled n r
      → Settled n (step is_audio opus_type eg p r e)
  unfolding step
  step-Settled n p r (copy_ends o) s =
      by_branch (Settled n) r.copies
        (λ c. record {
          settled = inl (going-outcome n r s (ground (arith, c)));
          closed = refl;
          opus = s.opus;
          cancels = cancels-finish eg (wrap copying o) r.group s.cancels;
          watched = or_true r.watches;
        })
        (λ c. s)
  step-Settled n p r (hls_ends o) s =
      by_branch (Settled n) r.hls_runs
        (λ c. record {
          settled = inl (going-outcome n r s (ground (arith, c)));
          closed = s.closed;
          opus = s.opus;
          cancels = cancels-finish eg (wrap hls_publish o) r.group s.cancels;
          watched = s.watched;
        })
        (λ c. s)
  step-Settled n p r (thumb now has_bframes) s =
      by_branch (Settled n) r.thumbs_run
        (λ c. record {
          settled = inl (going-outcome n r s (ground (arith, c)));
          closed = s.closed;
          opus = s.opus;
          cancels = s.cancels;
          watched = s.watched;
        })
        (λ c. s)
  step-Settled n p r thumbs_end s =
      by_branch (Settled n) r.thumbs_run
        (λ c. record {
          settled = inl (going-outcome n r s (ground (arith, c)));
          closed = s.closed;
          opus = s.opus;
          cancels = cancels-finish eg (none) r.group s.cancels;
          watched = s.watched;
        })
        (λ c. s)
  step-Settled n p r (opus_ends o) s =
      by_branch (Settled n) r.converts
        (λ c. record {
          settled = inl (going-outcome n r s (ground (arith, c)));
          closed = s.closed;
          opus = or_true (not n);
          cancels = cancels-finish eg (wrap opus_conversion o) r.group s.cancels;
          watched = s.watched;
        })
        (λ c. s)
  step-Settled n p r context_ends s =
      by_branch (Settled n) ((r.watches && eg.cancelled r.group))
        (λ c. record {
          settled = s.settled;
          closed = or_true r.copies;
          opus = s.opus;
          cancels = s.cancels;
          watched = refl;
        })
        (λ c. s)
  step-Settled n p r (wait_returns now) s =
      by_branch (Settled n) ((all_ended is_audio opus_type eg r && not (is_some r.outcome)))
        (λ c. record {
          settled = inr (ground (arith, c), ap some (sym (eg.err-wait r.group)));
          closed = s.closed;
          opus = s.opus;
          cancels = waited-cancels eg r.group;
          watched = s.watched;
        })
        (λ c. s)
  step-Settled n p r (elsewhere channels) s = record {
    settled = s.settled;
    closed = s.closed;
    opus = s.opus;
    cancels = s.cancels;
    watched = s.watched;
  }

  pub run-Settled :
      (n : Bool) (p : Publication) (r : Run G E) (es : List (Event E))
      → Settled n r
      → Settled n (run is_audio opus_type eg p r es)
  run-Settled n p r [] s = s
  run-Settled n p r (e ∷ es) s =
      run-Settled n p (step is_audio opus_type eg p r e) es (step-Settled n p r e s)
