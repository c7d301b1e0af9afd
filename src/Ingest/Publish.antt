-- ===== src/Ingest/Publish.antt =====
-- ingest/publish.go: one call of Publish with the goroutines that it starts, up to its return. The
-- group of golang.org/x/sync/errgroup is a parameter with its documented laws. What a goroutine's
-- callee returns, and when, is an event; so is a thumbnail. What other goroutines of the server do
-- to the channels may happen at any time. The announcements are this publication's.
pub mod Ends
use gunk.Base.{
  ℕ, ◌≡◌, Bool, true, false, not, ◌&&◌, ◌||◌, Option, none, some, List, [], ◌∷◌, ◌==◌,
  if◌then◌else◌, is_some,
}
use gunk.Base.Group.{ErrGroup, steps}
use gunk.Base.Dict.{Dict}
use gunk.Ingest.Channel.{Channel}
use gunk.Ingest.Manager.{Publication, Manager, Error, audio_type, begin_with, end_publish, on_thumb}

-- What Publish returns an error of.
pub data Failure (E : Type 0) : Type 0 where
  starting : Error → Failure E
  hls_publish : E → Failure E
  opus_conversion : E → Failure E
  copying : E → Failure E

-- errors.Wrap: no error stays none.
abbrev pub wrap : {E : Type 0} → (E → Failure E) → Option E → Option (Failure E)
wrap f none = none
wrap f (some e) = some (f e)

-- Which goroutines still run: the copying from the source, the HLS output, the thumbnails, the
-- conversion to Opus, and the one that waits for the context.
pub record Run (G E : Type 0) : Type 0 where
  pub group : G
  pub manager : Manager
  pub copies : Bool
  pub hls_runs : Bool
  pub thumbs_run : Bool
  pub converts : Bool
  pub watches : Bool
  pub q_closed : Bool
  pub opus_closed : Bool
  pub outcome : Option (Option (Failure E))

pub data Event (E : Type 0) : Type 0 where
  copy_ends : Option E → Event E
  hls_ends : Option E → Event E
  thumb : ℕ → Bool → Event E
  thumbs_end : Event E
  opus_ends : Option E → Event E
  context_ends : Event E
  wait_returns : ℕ → Event E
  elsewhere : Dict Channel → Event E

-- convertOpus: the bitrate that is converted at.
unfoldable pub opus_bitrate : ℕ → ℕ
opus_bitrate bitrate = if bitrate == 0 then 128000 else bitrate

module _ (is_audio : ℕ → Bool) (opus_type : ℕ) {G E : Type 0} (eg : ErrGroup G (Failure E)) where
  -- Whether the audio is converted.
  abbrev pub needs_opus : Option (List ℕ) → Bool
  needs_opus none = false
  needs_opus (some streams) =
      let t = audio_type is_audio opus_type streams in not (t == opus_type || t == 0)

  -- Publish up to Wait. An early return leaves the goroutine that waits for the context, if it has
  -- been started.
  unfoldable pub start : Publication → Manager → Run G E
  unfolding begin_with audio_type
  start p m =
      let (begun, error) = begin_with is_audio opus_type p m p.streams in
      let goes = not (is_some error) in
      record {
        group = eg.fresh;
        manager = begun;
        copies = goes;
        hls_runs = goes;
        thumbs_run = goes;
        converts = goes && needs_opus p.streams;
        watches = is_some p.streams;
        q_closed = false;
        opus_closed = false;
        outcome = elim error [ none ↦ none | some e ↦ some (some (starting e)) ];
      }

  -- `eg.Go(func() error { return ch.copyStream(q, src) })`, which closes the queue.
  abbrev pub copy_ended : Option E → Run G E → Run G E
  copy_ended o r = record r {
    group = eg.finish (wrap copying o) r.group;
    copies = false;
    q_closed = true;
  }

  abbrev pub hls_ended : Option E → Run G E → Run G E
  hls_ended o r = record r { group = eg.finish (wrap hls_publish o) r.group; hls_runs = false }

  abbrev pub thumbs_ended : Run G E → Run G E
  thumbs_ended r = record r { group = eg.finish none r.group; thumbs_run = false }

  -- convertOpus, which closes the other queue.
  abbrev pub opus_ended : Option E → Run G E → Run G E
  opus_ended o r = record r {
    group = eg.finish (wrap opus_conversion o) r.group;
    converts = false;
    opus_closed = true;
  }

  -- Wait returns when every function of the group has.
  abbrev pub all_ended : Run G E → Bool
  all_ended r = not (r.copies || (r.hls_runs || (r.thumbs_run || r.converts)))

  abbrev pub returned : Publication → ℕ → Run G E → Run G E
  returned p now r = record r {
    group = eg.wait r.group;
    manager = end_publish is_audio opus_type p now r.manager;
    outcome = some (eg.err r.group);
  }

  unfoldable pub step : Publication → Run G E → Event E → Run G E
  step p r (copy_ends o) = if r.copies then copy_ended o r else r
  step p r (hls_ends o) = if r.hls_runs then hls_ended o r else r
  step p r (thumb now has_bframes) =
      let told = record r { manager = on_thumb is_audio opus_type p now has_bframes r.manager } in
      if r.thumbs_run then told else r
  step p r thumbs_end = if r.thumbs_run then thumbs_ended r else r
  step p r (opus_ends o) = if r.converts then opus_ended o r else r
  step p r context_ends =
      let closed = record r { watches = false; q_closed = true } in
      if r.watches && eg.cancelled r.group then closed else r
  step p r (wait_returns now) =
      if all_ended r && not (is_some r.outcome) then returned p now r else r
  step p r (elsewhere channels) = record r { manager = record r.manager { channels = channels } }

  abbrev pub run : Publication → Run G E → List (Event E) → Run G E
  run p = steps (step p)
