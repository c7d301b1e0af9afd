-- ===== src/Ingest/Manager/Schedule.antt =====
-- Any schedule of publications on any channels: who is on the air.
use gunk.Base.{
  ℕ, ◌≡◌, ◌∙◌, refl, ap, Bool, true, Option, none, some, List, [], ◌∷◌, ◌&&◌, if◌then◌else◌, Text,
  text_eq, text_eq_iff, is_some, arith,
}
use gunk.Base.Dict.{Dict, get, get-put}
use gunk.Ingest.Channel.{
  Channel, set_stream, stop_stream, cleanup, is_current, count_hls_viewers, note_bframes,
}
use gunk.Ingest.Manager.{
  Publication, Manager, channel, or_new, update, announce, begin_with, begin_publish, end_publish,
  on_thumb, cleanup_all, clean_all, opus_queue,
}

-- What may happen to the manager, in any order.
pub data Event : Type 0 where
  begins : Publication → Event
  ends : Publication → ℕ → Event
  thumbs : Publication → ℕ → Bool → Event
  cleans : ℕ → Event

-- The source of the channel of a name.
abbrev pub source : Manager → Text → Option ℕ
source m name = (or_new (channel m name)).ingest

pub channel-update :
    (name j : Text) (f : Channel → Channel) (m : Manager)
    → channel (update name f m) j
      ≡ (if text_eq name j then some (f (or_new (channel m name))) else channel m j)
channel-update name j f m = get-put name j (f (or_new (channel m name))) m.channels

module _ (is_audio : ℕ → Bool) (opus_type : ℕ) where
  unfoldable pub step : Manager → Event → Manager
  step m (begins p) = (begin_publish is_audio opus_type p m).0
  step m (ends p now) = end_publish is_audio opus_type p now m
  step m (thumbs p now has_bframes) = on_thumb is_audio opus_type p now has_bframes m
  step m (cleans now) = cleanup_all now m

  unfoldable pub run : Manager → List Event → Manager
  run m [] = m
  run m (e ∷ es) = run (step m e) es

  -- A publication begins if its streams can be read and the frame grabber set up.
  abbrev pub can_begin : Publication → Bool
  can_begin p = is_some p.streams && p.grab_ok

  -- The publication on the air under a name, by its queue: the last one to begin, until it ends.
  abbrev pub on_air : Text → Option ℕ → Event → Option ℕ
  on_air name current (begins p) =
      if text_eq p.auth.name name && can_begin p then some p.q else current
  on_air name current (ends p now) =
      if text_eq p.auth.name name && is_current current p.q then none else current
  on_air name current (thumbs _ _ _) = current
  on_air name current (cleans _) = current

  abbrev pub on_air_after : Text → Option ℕ → List Event → Option ℕ
  on_air_after name current [] = current
  on_air_after name current (e ∷ es) = on_air_after name (on_air name current e) es

  source-update :
      (name j : Text) (f : Channel → Channel) (m : Manager)
      → source (update name f m) j
        ≡ (if text_eq name j then (f (or_new (channel m j))).ingest else source m j)
  source-update name j f m = ground (arith, channel-update name j f m, text_eq_iff name j)

  source-cleanup :
      (now : ℕ) (name : Text) (m : Dict Channel)
      → (or_new (get name (clean_all now m))).ingest ≡ (or_new (get name m)).ingest
  unfolding get cleanup
  source-cleanup now name [] = refl
  source-cleanup now name ((k, ch) ∷ m) = ground (arith, source-cleanup now name m)

  ingest-set_stream : (q a o h : ℕ) (ch : Channel) → (set_stream q a o h ch).ingest ≡ some q
  unfolding set_stream
  ingest-set_stream q a o h ch = ground arith

  ingest-stop_stream :
      (q now : ℕ) (ch : Channel)
      → (stop_stream q now ch).ingest ≡ (if is_current ch.ingest q then none else ch.ingest)
  unfolding stop_stream
  ingest-stop_stream q now ch = ground arith

  source-begin_with :
      (m : Manager) (p : Publication) (streams : Option (List ℕ)) (name : Text)
      → source (begin_with is_audio opus_type p m streams).0 name ≡ (
          if text_eq p.auth.name name && (is_some streams && p.grab_ok)
          then some p.q
          else source m name)
  unfolding begin_with
  source-begin_with m p none name = ground arith
  source-begin_with m p (some streams) name =
      let o = opus_queue is_audio opus_type p streams in
      ground (
        arith,
        source-update p.auth.name name (set_stream p.q p.q o p.fresh_hls) m,
        ingest-set_stream p.q p.q o p.fresh_hls (or_new (channel m name)),
      )

  source-begin :
      (m : Manager) (p : Publication) (name : Text)
      → source (begin_publish is_audio opus_type p m).0 name
        ≡ on_air name (source m name) (begins p)
  unfolding begin_publish
  source-begin m p name = source-begin_with m p p.streams name

  source-end :
      (m : Manager) (p : Publication) (now : ℕ) (name : Text)
      → source (end_publish is_audio opus_type p now m) name
        ≡ on_air name (source m name) (ends p now)
  unfolding end_publish
  source-end m p now name = ground (
    arith,
    source-update p.auth.name name (stop_stream p.q now) m,
    ingest-stop_stream p.q now (or_new (channel m name)),
  )

  source-same :
      (m : Manager) (name j : Text) (f : Channel → Channel)
      → ((ch : Channel) → (f ch).ingest ≡ ch.ingest)
      → source (update name f m) j ≡ source m j
  source-same m name j f keeps =
      ground (arith, source-update name j f m, keeps (or_new (channel m j)))

  source-thumb :
      (m : Manager) (p : Publication) (now : ℕ) (bf : Bool) (name : Text)
      → source (on_thumb is_audio opus_type p now bf m) name ≡ source m name
  unfolding on_thumb note_bframes count_hls_viewers
  source-thumb m p now bf name =
      source-same (announce p.auth true (some now) (update p.auth.name (count_hls_viewers now) m))
        p.auth.name name (note_bframes bf) (λ ch. refl)
      ∙ source-same m p.auth.name name (count_hls_viewers now) (λ ch. refl)

  source-step :
      (m : Manager) (e : Event) (name : Text)
      → source (step m e) name ≡ on_air name (source m name) e
  unfolding step cleanup_all
  source-step m (begins p) name = source-begin m p name
  source-step m (ends p now) name = source-end m p now name
  source-step m (thumbs p now bf) name = source-thumb m p now bf name
  source-step m (cleans now) name = source-cleanup now name m.channels

  -- Whatever publications begin, end and show thumbnails on any channels in any order, and whenever
  -- the cleanup runs: the source of each channel is the queue of the last publication under its
  -- name that could begin, until that publication ends.
  pub source-run :
      (m : Manager) (es : List Event) (name : Text)
      → source (run m es) name ≡ on_air_after name (source m name) es
  unfolding run
  source-run m [] name = refl
  source-run m (e ∷ es) name =
      source-run (step m e) es name ∙ ap (λ c. on_air_after name c es) (source-step m e name)
