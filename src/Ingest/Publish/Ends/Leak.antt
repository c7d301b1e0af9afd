-- ===== src/Ingest/Publish/Ends/Leak.antt =====
-- A frame grabber that cannot be set up: what the early return leaves behind.
use gunk.Base.{
  ℕ, ◌≡◌, ◌∙◌, refl, ap, Bool, true, false, not, ◌&&◌, Option, some, List, [], ◌∷◌, is_some,
  by_branch, arith,
}
use gunk.Base.Group.{ErrGroup}
use gunk.Ingest.Manager.{Publication, Manager, setting_up_grabber, begin_with}
use gunk.Ingest.Publish.{
  Failure, starting, Run, Event, copy_ends, hls_ends, thumb, thumbs_end, opus_ends, context_ends,
  wait_returns, elsewhere, start, all_ended, step, run,
}

module _ (is_audio : ℕ → Bool) (opus_type : ℕ) {G E : Type 0} (eg : ErrGroup G (Failure E)) where
  -- Publish has returned, and the goroutine that waits for the context waits.
  record Stuck (o : Option (Failure E)) (r : Run G E) : Type 0 where
    copies : r.copies ≡ false
    hls_runs : r.hls_runs ≡ false
    thumbs_run : r.thumbs_run ≡ false
    converts : r.converts ≡ false
    watches : r.watches ≡ true
    open_queue : r.q_closed ≡ false
    waits : eg.cancelled r.group ≡ false
    outcome : r.outcome ≡ some o

  both_ways : {b : Bool} → b ≡ true → b ≡ false → ⊥
  both_ways t f = ground (arith, t, f)

  step-Stuck :
      (o : Option (Failure E)) (p : Publication) (r : Run G E) (e : Event E)
      → Stuck o r
      → Stuck o (step is_audio opus_type eg p r e)
  unfolding step
  step-Stuck o p r (copy_ends _) s =
      by_branch (Stuck o) r.copies (λ c. absurd (both_ways c s.copies)) (λ c. s)
  step-Stuck o p r (hls_ends _) s =
      by_branch (Stuck o) r.hls_runs (λ c. absurd (both_ways c s.hls_runs)) (λ c. s)
  step-Stuck o p r (opus_ends _) s =
      by_branch (Stuck o) r.converts (λ c. absurd (both_ways c s.converts)) (λ c. s)
  step-Stuck o p r (thumb now has_bframes) s =
      by_branch (Stuck o) r.thumbs_run (λ c. absurd (both_ways c s.thumbs_run)) (λ c. s)
  step-Stuck o p r thumbs_end s =
      by_branch (Stuck o) r.thumbs_run (λ c. absurd (both_ways c s.thumbs_run)) (λ c. s)
  step-Stuck o p r context_ends s =
      by_branch (Stuck o) (r.watches && eg.cancelled r.group)
        (λ c. let waits = s.waits in absurd (ground (arith, c, waits))) (λ c. s)
  step-Stuck o p r (wait_returns now) s =
      by_branch (Stuck o) (all_ended is_audio opus_type eg r && not (is_some r.outcome))
        (λ c. let done = s.outcome in absurd (ground (arith, c, done))) (λ c. s)
  step-Stuck o p r (elsewhere channels) s = record {
    copies = s.copies;
    hls_runs = s.hls_runs;
    thumbs_run = s.thumbs_run;
    converts = s.converts;
    watches = s.watches;
    open_queue = s.open_queue;
    waits = s.waits;
    outcome = s.outcome;
  }

  run-Stuck :
      (o : Option (Failure E)) (p : Publication) (r : Run G E) (es : List (Event E))
      → Stuck o r
      → Stuck o (run is_audio opus_type eg p r es)
  run-Stuck o p r [] s = s
  run-Stuck o p r (e ∷ es) s =
      run-Stuck o p (step is_audio opus_type eg p r e) es (step-Stuck o p r e s)

  start-Stuck :
      (p : Publication) (m : Manager) (streams : List ℕ)
      → Stuck
          (some (starting setting_up_grabber))
          (start is_audio opus_type eg (record p { streams = some streams; grab_ok = false }) m)
  unfolding start begin_with
  start-Stuck p m streams = record {
    copies = refl;
    hls_runs = refl;
    thumbs_run = refl;
    converts = refl;
    watches = refl;
    open_queue = refl;
    waits = eg.cancelled-fresh;
    outcome = refl;
  }

  -- If the streams can be read and the frame grabber cannot be set up, Publish returns that error,
  -- but nothing ever cancels the context: whatever happens, the goroutine that waits for it never
  -- ends, and the queue stays open.
  pub failed_grab_leaks :
      (p : Publication) (m : Manager) (streams : List ℕ) (es : List (Event E))
      → p.streams ≡ some streams
      → p.grab_ok ≡ false
      → ((run is_audio opus_type eg p (start is_audio opus_type eg p m) es).outcome
          ≡ some (some (starting setting_up_grabber)))
        × ((run is_audio opus_type eg p (start is_audio opus_type eg p m) es).watches ≡ true)
        × ((run is_audio opus_type eg p (start is_audio opus_type eg p m) es).q_closed ≡ false)
  failed_grab_leaks p m streams es known fails =
      let q : Publication = record p { streams = some streams; grab_ok = false } in
      let same : p ≡ q =
        ap (λ (o : Option (List ℕ)). record p { streams = o }) known
        ∙ ap (λ (g : Bool). record p { streams = some streams; grab_ok = g }) fails in
      let s : Stuck (some (starting setting_up_grabber)) (start is_audio opus_type eg p m) =
        rw same (start-Stuck p m streams) in
      let stuck =
        run-Stuck (some (starting setting_up_grabber)) p (start is_audio opus_type eg p m) es s in
      (stuck.outcome, stuck.watches, stuck.open_queue)
