-- ===== src/Ingest/Publish/Ends/Result.antt =====
-- What Publish returns, and what it leaves behind.
use gunk.Base.{
  ℕ, ◌≡◌, inl, inr, ◌∙◌, sym, refl, Bool, true, false, not, ◌&&◌, ◌||◌, Option, none, some, List,
  [], is_some, arith,
}
use gunk.Base.Group.{tally, ErrGroup}
use gunk.Ingest.Manager.{announce, update, opus_queue, Publication, Manager, begin_with}
use gunk.Ingest.Channel.{set_stream}
use gunk.Ingest.Publish.{Failure, Run, Event, needs_opus, start, all_ended, run}
use gunk.Ingest.Publish.Ends.{Settled, run-Settled}
use gunk.Ingest.Publish.Ends.Errors.{fails, after, err-run}

abbrev or_else : Option (List ℕ) → List ℕ
or_else none = []
or_else (some streams) = streams

some_inj {ℓ} : {A : Type ℓ} {a b : A} → some a ≡ some b → a ≡ b
some_inj e = cc

module _ (is_audio : ℕ → Bool) (opus_type : ℕ) {G E : Type 0} (eg : ErrGroup G (Failure E)) where
  -- Publish at Wait, with everything that it has started.
  abbrev pub begun : Publication → Manager → Run G E
  begun p m = record {
    group = eg.fresh;
    manager = announce p.auth true none (
        update p.auth.name
          (set_stream p.q p.q (opus_queue is_audio opus_type p (or_else p.streams)) p.fresh_hls) m);
    copies = true;
    hls_runs = true;
    thumbs_run = true;
    converts = needs_opus is_audio opus_type eg p.streams;
    watches = true;
    q_closed = false;
    opus_closed = false;
    outcome = none;
  }

  pub start-begun :
      (p : Publication) (m : Manager)
      → (is_some p.streams && p.grab_ok) ≡ true
      → start is_audio opus_type eg p m ≡ begun p m
  unfolding start begin_with
  start-begun p m can = go p.streams p.grab_ok can
    where
      go :
          (o : Option (List ℕ)) (g : Bool)
          → (is_some o && g) ≡ true
          → start is_audio opus_type eg (record p { streams = o; grab_ok = g }) m
            ≡ begun (record p { streams = o; grab_ok = g }) m
      go none g can = absurd (ground (arith, can))
      go (some streams) false can = absurd (ground (arith, can))
      go (some streams) true can = refl

  either : (b : Bool) → (not b || (b || false)) ≡ true
  either b = ground arith

  pub begun-Settled :
      (p : Publication) (m : Manager)
      → Settled is_audio opus_type eg (needs_opus is_audio opus_type eg p.streams) (begun p m)
  begun-Settled p m = record {
    settled = inl refl;
    closed = refl;
    opus = either (needs_opus is_audio opus_type eg p.streams);
    cancels = rw eg.err-fresh refl;
    watched = refl;
  }

  outcome-Settled :
      {n : Bool} (r : Run G E) (o : Option (Failure E))
      → Settled is_audio opus_type eg n r
      → r.outcome ≡ some o
      → (all_ended is_audio opus_type eg r ≡ true) × (o ≡ eg.err r.group)
  outcome-Settled r o s returns = elim s.settled [
    | inl running ↦ absurd (ground (arith, running, returns))
    | inr (ended, err) ↦ (ended, some_inj (sym returns ∙ err))
  ]

  both_closed :
      {n : Bool} (r : Run G E)
      → Settled is_audio opus_type eg n r
      → all_ended is_audio opus_type eg r ≡ true
      → (r.q_closed ≡ true) × ((not n || r.opus_closed) ≡ true)
  both_closed r s ended =
      let closed = s.closed in
      let opus = s.opus in (ground (arith, ended, closed), ground (arith, ended, opus))

  module _ (p : Publication) (m : Manager) (es : List (Event E))
      (can : (is_some p.streams && p.grab_ok) ≡ true) where
    run_of : Run G E
    run_of = run is_audio opus_type eg p (start is_audio opus_type eg p m) es

    tally_of : Option (Failure E)
    tally_of = tally fails after (true, true, needs_opus is_audio opus_type eg p.streams, true) es

    after-Settled :
        Settled is_audio opus_type eg (needs_opus is_audio opus_type eg p.streams) run_of
    unfolding run_of
    after-Settled = rw (start-begun p m can) (
        run-Settled is_audio opus_type eg (needs_opus is_audio opus_type eg p.streams) p (begun p m)
          es (begun-Settled p m))

    after-err : eg.err run_of.group ≡ tally_of
    unfolding run_of tally_of
    after-err =
        rw (start-begun p m can)
          (err-run is_audio opus_type eg p (begun p m) es ∙ rw eg.err-fresh refl)

    -- Publish returns the first error of the copying, of the HLS output and of the conversion, and
    -- none if none of them fails, in whatever order they end; none of the functions of its group runs any more then, its queue is closed, and so is that of the conversion, if there is one.
    pub publish_result :
        (o : Option (Failure E))
        → (run is_audio opus_type eg p (start is_audio opus_type eg p m) es).outcome ≡ some o
        → (o ≡ tally fails after (true, true, needs_opus is_audio opus_type eg p.streams, true) es)
          × (all_ended is_audio opus_type eg
                (run is_audio opus_type eg p (start is_audio opus_type eg p m) es)
              ≡ true)
          × ((run is_audio opus_type eg p (start is_audio opus_type eg p m) es).q_closed ≡ true)
          × ((not (needs_opus is_audio opus_type eg p.streams)
                || (run is_audio opus_type eg p (start is_audio opus_type eg p m) es).opus_closed)
              ≡ true)
    unfolding run_of tally_of
    publish_result o returns =
        let s = after-Settled in
        let (ended, err) = outcome-Settled run_of o s returns in
        let (q, opus) = both_closed run_of s ended in (err ∙ after-err, ended, q, opus)
