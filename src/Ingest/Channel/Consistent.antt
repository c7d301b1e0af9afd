-- ===== src/Ingest/Channel/Consistent.antt =====
-- What holds of a channel between any two operations.
use gunk.Base.{◌≡◌, true, false, none, some, List, [], ◌∷◌, arith, is_some}
use gunk.Ingest.Channel.{
  Channel, new_channel, set_stream, stop_stream, cleanup, hls_viewed, count_hls_viewers, add_viewer,
  note_bframes, Event, step, run, queue, is_live, get_hls,
}

pub record IsConsistent (ch : Channel) : Type 0 where
  pub playing : ch.live ≡ is_some ch.ingest
  pub aac_queue : is_some ch.aac ≡ is_some ch.ingest
  pub opus_queue : is_some ch.opus ≡ is_some ch.ingest
  pub served : is_some ch.ingest ≡ true → (is_some ch.hls ≡ true) × (ch.stopped_at ≡ none)
  pub expiring : is_some ch.ingest ≡ false → is_some ch.hls ≡ true → is_some ch.stopped_at ≡ true

new_channel-IsConsistent : IsConsistent new_channel
new_channel-IsConsistent = ground arith

step-IsConsistent : (ch : Channel) (e : Event) → IsConsistent ch → IsConsistent (step ch e)
unfolding step set_stream stop_stream cleanup hls_viewed count_hls_viewers add_viewer note_bframes
step-IsConsistent ch e v = ground arith

run-IsConsistent : (ch : Channel) (es : List Event) → IsConsistent ch → IsConsistent (run ch es)
unfolding run
run-IsConsistent ch [] v = v
run-IsConsistent ch (e ∷ es) v = run-IsConsistent (step ch e) es (step-IsConsistent ch e v)

-- After any operations a channel is live exactly when it has a source, then it can be played by
-- every way and its HLS output has no expiry; an HLS output without a source has one.
pub run_consistent :
    (es : List Event)
    → let ch = run new_channel es in
      (is_live (some ch) ≡ is_some ch.ingest)
      × (is_some (queue true (some ch)) ≡ is_live (some ch))
      × (is_some (queue false (some ch)) ≡ is_live (some ch))
      × (is_live (some ch) ≡ true → (is_some (get_hls (some ch)) ≡ true) × (ch.stopped_at ≡ none))
      × (is_live (some ch) ≡ false
          → is_some (get_hls (some ch)) ≡ true
          → is_some ch.stopped_at ≡ true)
unfolding queue is_live get_hls
run_consistent es =
    let v = run-IsConsistent new_channel es new_channel-IsConsistent in ground (arith, v)
