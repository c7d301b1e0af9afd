-- ===== src/Ingest/Channel/Takeover.antt =====
-- A publisher that takes a channel over from another.
use gunk.Base.{
  ◌≡◌, ◌≢◌, refl, true, false, Option, none, some, List, [], ◌∷◌, ◌++◌, arith, ℕ, if◌then◌else◌,
  append-nil, ap, sym, ◌∙◌,
}
use gunk.Ingest.Channel.{
  Channel, Effect, closes_queue, discontinuity, set_stream, stop_stream, queue, is_live, is_current,
  Event, sets, stops, cleans, looks, counts, joins, leaves, thumbs, step, run, cleanup, hls_viewed,
  count_hls_viewers, add_viewer, note_bframes,
}

-- What setStream asks of the HLS output that was there.
abbrev pub hls_effects : Option ℕ → List Effect
hls_effects none = []
hls_effects (some p) = discontinuity p ∷ []

-- The new publisher's start closes the queue of the old one and marks a discontinuity in an HLS
-- output that goes on. The old publisher's end, whenever it comes, then changes nothing: the
-- channel goes on playing the new publisher's queues.
pub set_stream-stop_stream :
    (ch : Channel) (old new aacq opusq fresh now : ℕ)
    → ch.ingest ≡ some old
    → old ≢ new
    → let taken = set_stream new aacq opusq fresh ch in
      (taken.effects ≡ (ch.effects ++ closes_queue old ∷ []) ++ hls_effects ch.hls)
      × (stop_stream old now taken ≡ taken)
      × (queue false (some (stop_stream old now taken)) ≡ some aacq)
      × (queue true (some (stop_stream old now taken)) ≡ some opusq)
      × (is_live (some (stop_stream old now taken)) ≡ true)
unfolding set_stream stop_stream queue is_live
set_stream-stop_stream ch old new aacq opusq fresh now from differ = (
  ground (arith, append-nil (ch.effects ++ closes_queue old ∷ [])),
  ground arith,
  ground arith,
  ground arith,
  ground arith,
)

-- The publisher that is on the air: the last one to begin, until it ends.
abbrev pub on_air : Option ℕ → List Event → Option ℕ
on_air current [] = current
on_air current (sets q _ _ _ ∷ es) = on_air (some q) es
on_air current (stops q _ ∷ es) = on_air (if is_current current q then none else current) es
on_air current (cleans _ ∷ es) = on_air current es
on_air current (looks _ _ ∷ es) = on_air current es
on_air current (counts _ ∷ es) = on_air current es
on_air current (joins ∷ es) = on_air current es
on_air current (leaves ∷ es) = on_air current es
on_air current (thumbs _ ∷ es) = on_air current es

on_air-cons :
    (current : Option ℕ) (e : Event) (es : List Event)
    → on_air current (e ∷ es) ≡ on_air (on_air current (e ∷ [])) es
on_air-cons current joins es = refl
on_air-cons current e es = refl

ingest-step : (ch : Channel) (e : Event) → (step ch e).ingest ≡ on_air ch.ingest (e ∷ [])
unfolding step set_stream stop_stream cleanup hls_viewed count_hls_viewers add_viewer note_bframes
ingest-step ch e = ground arith

-- Whatever else happens in between, the channel's source is the publisher that is on the air.
pub ingest-run : (ch : Channel) (es : List Event) → (run ch es).ingest ≡ on_air ch.ingest es
unfolding run
ingest-run ch [] = refl
ingest-run ch (e ∷ es) =
    ingest-run (step ch e) es
    ∙ ap (λ c. on_air c es) (ingest-step ch e)
    ∙ sym (on_air-cons ch.ingest e es)
