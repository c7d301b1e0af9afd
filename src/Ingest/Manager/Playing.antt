-- ===== src/Ingest/Manager/Playing.antt =====
-- What every way of playing a channel gets, after any schedule of publications.
use gunk.Base.{
  ℕ, ◌≡◌, ◌∙◌, ap, sym, subst, Bool, true, false, Option, none, some, List, [], ◌∷◌, ◌++◌,
  if◌then◌else◌, not, ◌==◌, Text, text_eq, is_some, arith,
}
use gunk.Base.Dict.{Dict, get}
use gunk.Ingest.Channel.{
  Channel, set_stream, stop_stream, cleanup, queue, is_live, note_bframes, count_hls_viewers,
}
use gunk.Ingest.Manager.{
  Publication, Manager, new_manager, channel, or_new, update, announce, begin_with, begin_publish,
  end_publish, on_thumb, clean_all, cleanup_all, opus_queue, Error, setting_up_grabber, serve_ts,
  serve_sdp, get_rtsp_source, first_part,
}
use gunk.Ingest.Manager.Schedule.{
  Event, begins, ends, thumbs, cleans, step, run, source, on_air_after, source-run, channel-update,
}

-- The AAC queue of a channel is its source's, and it has an Opus queue and is live with a source.
pub record Plays (ch : Channel) : Type 0 where
  pub same : ch.aac ≡ ch.ingest
  pub converted : is_some ch.opus ≡ is_some ch.ingest
  pub on : ch.live ≡ is_some ch.ingest

AllPlay : Manager → Type 0
AllPlay m = (name : Text) → Plays (or_new (channel m name))

set_stream-Plays : (q o h : ℕ) (ch : Channel) → Plays ch → Plays (set_stream q q o h ch)
unfolding set_stream
set_stream-Plays q o h ch v = ground arith

stop_stream-Plays : (q now : ℕ) (ch : Channel) → Plays ch → Plays (stop_stream q now ch)
unfolding stop_stream
stop_stream-Plays q now ch v = ground arith

cleanup-Plays : (now : ℕ) (ch : Channel) → Plays ch → Plays (cleanup now ch)
unfolding cleanup
cleanup-Plays now ch v = ground arith

note_bframes-Plays : (bf : Bool) (ch : Channel) → Plays ch → Plays (note_bframes bf ch)
unfolding note_bframes
note_bframes-Plays bf ch v = ground arith

count-Plays : (now : ℕ) (ch : Channel) → Plays ch → Plays (count_hls_viewers now ch)
unfolding count_hls_viewers
count-Plays now ch v = ground arith

Plays-if :
    (b : Bool) (x y : Option Channel)
    → Plays (or_new x)
    → Plays (or_new y)
    → Plays (or_new (if b then x else y))
Plays-if true x y v w = v
Plays-if false x y v w = w

update-AllPlay :
    (name : Text) (f : Channel → Channel) (m : Manager)
    → ((ch : Channel) → Plays ch → Plays (f ch))
    → AllPlay m
    → AllPlay (update name f m)
unfolding AllPlay
update-AllPlay name f m keeps v j =
    subst (λ c. Plays (or_new c)) (sym (channel-update name j f m))
      (Plays-if (text_eq name j) (some (f (or_new (channel m name)))) (channel m j)
        (keeps (or_new (channel m name)) (v name)) (v j))

cleanup-if :
    (b : Bool) (now : ℕ) (ch : Channel) (x y : Option Channel)
    → (Plays (or_new x) → Plays (or_new y))
    → Plays (or_new (if b then some ch else x))
    → Plays (or_new (if b then some (cleanup now ch) else y))
cleanup-if true now ch x y f v = cleanup-Plays now ch v
cleanup-if false now ch x y f v = f v

clean_all-Plays :
    (now : ℕ) (d : Dict Channel) (name : Text)
    → Plays (or_new (get name d))
    → Plays (or_new (get name (clean_all now d)))
unfolding get
clean_all-Plays now [] name v = v
clean_all-Plays now ((k, ch) ∷ d) name v =
    cleanup-if (text_eq k name) now ch (get name d) (get name (clean_all now d))
      (clean_all-Plays now d name) v

begun-if :
    (b : Bool) (m begun : Manager)
    → AllPlay m
    → AllPlay begun
    → AllPlay
        (if◌then◌else◌ {A = Manager × Option Error}
          (not b)
          (m, some setting_up_grabber)
          (begun, none)).0
begun-if true m begun v w = w
begun-if false m begun v w = v

module _ (is_audio : ℕ → Bool) (opus_type : ℕ) where
  begin_with-AllPlay :
      (p : Publication) (m : Manager) (streams : Option (List ℕ))
      → AllPlay m
      → AllPlay (begin_with is_audio opus_type p m streams).0
  unfolding begin_with AllPlay
  begin_with-AllPlay p m none v = v
  begin_with-AllPlay p m (some streams) v =
      let o = opus_queue is_audio opus_type p streams in
      let begun =
        update-AllPlay p.auth.name (set_stream p.q p.q o p.fresh_hls) m
          (set_stream-Plays p.q o p.fresh_hls) v in
      begun-if p.grab_ok m
        (announce p.auth true none (update p.auth.name (set_stream p.q p.q o p.fresh_hls) m)) v
        begun

  step-AllPlay : (m : Manager) (e : Event) → AllPlay m → AllPlay (step is_audio opus_type m e)
  unfolding AllPlay step begin_publish end_publish on_thumb cleanup_all
  step-AllPlay m (begins p) v = begin_with-AllPlay p m p.streams v
  step-AllPlay m (ends p now) v =
      update-AllPlay p.auth.name (stop_stream p.q now) m (stop_stream-Plays p.q now) v
  step-AllPlay m (thumbs p now bf) v =
      update-AllPlay p.auth.name (note_bframes bf)
        (announce p.auth true (some now) (update p.auth.name (count_hls_viewers now) m))
        (note_bframes-Plays bf)
        (update-AllPlay p.auth.name (count_hls_viewers now) m (count-Plays now) v)
  step-AllPlay m (cleans now) v = λ name. clean_all-Plays now m.channels name (v name)

  run-AllPlay : (m : Manager) (es : List Event) → AllPlay m → AllPlay (run is_audio opus_type m es)
  unfolding run
  run-AllPlay m [] v = v
  run-AllPlay m (e ∷ es) v = run-AllPlay (step is_audio opus_type m e) es (step-AllPlay m e v)

new-AllPlay : AllPlay new_manager
unfolding AllPlay get
new-AllPlay name = ground arith

serve_ts_lem :
    (m : Manager) (name : Text)
    → Plays (or_new (channel m name))
    → (serve_ts m name ≡ source m name)
      × (is_some (serve_sdp m name) ≡ is_some (source m name))
      × (is_live (channel m name) ≡ is_some (source m name))
unfolding serve_ts serve_sdp queue is_live
serve_ts_lem m name v = ground (arith, v)

-- After any schedule of publications and cleanups of a server that starts, ServeTS plays the queue
-- of the publication on the air under the name, and nothing if there is none; and exactly while one
-- is on the air, ServeSDP has a queue and the channel is live.
pub served_on_air :
    (is_audio : ℕ → Bool)
    → (opus_type : ℕ) (es : List Event) (name : Text)
    → let m = run is_audio opus_type new_manager es in
      let playing = on_air_after is_audio opus_type name none es in
      (serve_ts m name ≡ playing)
      × (is_some (serve_sdp m name) ≡ is_some playing)
      × (is_live (channel m name) ≡ is_some playing)
unfolding AllPlay get
served_on_air is_audio opus_type es name =
    let m = run is_audio opus_type new_manager es in
    let (ts, sdp, live) =
      serve_ts_lem m name (run-AllPlay is_audio opus_type new_manager es new-AllPlay name) in
    let same = source-run is_audio opus_type new_manager es name in
    (ts ∙ same, sdp ∙ ap is_some same, live ∙ ap is_some same)

abbrev pub no_slash : Text → Bool
no_slash [] = true
no_slash (c ∷ cs) = if c == b'/' then false else no_slash cs

first_part_lem : (name rest : Text) → no_slash name ≡ true → first_part (name ++ b'/' ∷ rest) ≡ name
first_part_lem [] rest h = ground arith
first_part_lem (c ∷ cs) rest h = ground (arith, first_part_lem cs rest)

first_part_whole : (name : Text) → no_slash name ≡ true → first_part name ≡ name
first_part_whole [] h = ground arith
first_part_whole (c ∷ cs) h = ground (arith, first_part_whole cs)

-- The path of an RTSP URL is a channel's name behind a slash, and whatever follows another slash is
-- ignored: it plays the Opus queue of that channel, as ServeSDP does for the name.
pub get_rtsp_source_lem :
    (m : Manager) (name rest : Text)
    → no_slash name ≡ true
    → (get_rtsp_source m (b'/' ∷ name) ≡ serve_sdp m name)
      × (get_rtsp_source m (b'/' ∷ name ++ b'/' ∷ rest) ≡ serve_sdp m name)
unfolding get_rtsp_source serve_sdp
get_rtsp_source_lem m name rest h = (
  ap (λ n. queue true (channel m n)) (first_part_whole name h),
  ap (λ n. queue true (channel m n)) (first_part_lem name rest h),
)
