-- ===== src/Ingest/Manager.antt =====
-- ingest/manager.go, publish.go and play.go: the channels of the server, by name.
-- A publication is what Publish is called with, and the objects that it makes: its queue, the queue
-- of the Opus conversion and, if the channel has none, its HLS publisher. `is_audio` is
-- CodecType.IsAudio of joy4.
pub mod Schedule
pub mod Playing
use gunk.Base.{
  ℕ, ◌≡◌, Bool, true, false, not, ◌&&◌, ◌||◌, Option, none, some, List, [], ◌∷◌, ◌++◌, map, ◌==◌,
  if◌then◌else◌, Text, codes, text_eq,
}
use gunk.Base.Dict.{Dict, get, put}
use gunk.Base.Int.{ℤ}
use gunk.Model.{ChannelAuth}
use gunk.Ingest.Channel.{
  Channel, new_channel, set_stream, stop_stream, cleanup, queue, is_live, get_hls, hls_viewed,
  count_hls_viewers, current_viewers, note_bframes,
}

pub record Publication : Type 0 where
  pub auth : ChannelAuth
  pub streams : Option (List ℕ)  -- the codec types, or the error of src.Streams()
  pub grab_ok : Bool
  pub q : ℕ
  pub converted : ℕ
  pub fresh_hls : ℕ

-- A call of PublishEvent; the time of a thumbnail, or none.
pub record Announcement : Type 0 where
  pub auth : ChannelAuth
  pub live : Bool
  pub thumb : Option ℕ

pub record Manager : Type 0 where
  pub channels : Dict Channel
  pub announced : List Announcement

abbrev pub new_manager : Manager
new_manager = record { channels = []; announced = [] }

-- Manager.channel
abbrev pub channel : Manager → Text → Option Channel
channel m name = get name m.channels

abbrev pub or_new : Option Channel → Channel
or_new none = new_channel
or_new (some ch) = ch

-- A change of a channel, which is stored first if it is not there.
abbrev pub update : Text → (Channel → Channel) → Manager → Manager
update name f m = record m { channels = put name (f (or_new (channel m name))) m.channels }

abbrev pub announce : ChannelAuth → Bool → Option ℕ → Manager → Manager
announce auth live thumb m = record m {
  announced = m.announced ++ record { auth = auth; live = live; thumb = thumb } ∷ [];
}

pub data Error : Type 0 where
  reading_streams : Error
  setting_up_grabber : Error
  no_channel : Error

module _ (is_audio : ℕ → Bool) (opus_type : ℕ) where
  -- audioType: the first audio stream's type, or 0.
  unfoldable pub audio_type : List ℕ → ℕ
  audio_type [] = 0
  audio_type (t ∷ ts) = if is_audio t then t else audio_type ts

  unfoldable pub opus_queue : Publication → List ℕ → ℕ
  unfolding audio_type
  opus_queue p streams =
      let t = audio_type streams in if t == opus_type || t == 0 then p.q else p.converted

  -- Publish, up to the start of the outputs, with what src.Streams() gave.
  unfoldable pub begin_with : Publication → Manager → Option (List ℕ) → Manager × Option Error
  begin_with p m none = (m, some reading_streams)
  begin_with p m (some streams) = if not p.grab_ok then (m, some setting_up_grabber) else (
    announce p.auth true none
        (update p.auth.name (set_stream p.q p.q (opus_queue p streams) p.fresh_hls) m),
    none,
  )

  unfoldable pub begin_publish : Publication → Manager → Manager × Option Error
  begin_publish p m = begin_with p m p.streams

  -- The deferred end of Publish.
  unfoldable pub end_publish : Publication → ℕ → Manager → Manager
  end_publish p now m = announce p.auth false none (update p.auth.name (stop_stream p.q now) m)

  -- A thumbnail of the frame grabber.
  unfoldable pub on_thumb : Publication → ℕ → Bool → Manager → Manager
  on_thumb p now has_bframes m =
      update p.auth.name (note_bframes has_bframes)
        (announce p.auth true (some now) (update p.auth.name (count_hls_viewers now) m))

-- Cleanup: every channel.
abbrev pub clean_all : ℕ → Dict Channel → Dict Channel
clean_all now [] = []
clean_all now ((name, ch) ∷ m) = (name, cleanup now ch) ∷ clean_all now m

unfoldable pub cleanup_all : ℕ → Manager → Manager
cleanup_all now m = record m { channels = clean_all now m.channels }

-- ServeTS and ServeSDP, up to the source that is played.
unfoldable pub serve_ts : Manager → Text → Option ℕ
serve_ts m name = queue false (channel m name)

unfoldable pub serve_sdp : Manager → Text → Option ℕ
serve_sdp m name = queue true (channel m name)

-- The text before the last colon.
abbrev before_colon : Text → Option Text
before_colon [] = none
before_colon (c ∷ cs) = elim (before_colon cs) [
  | some w ↦ some (c ∷ w)
  | none ↦ if c == b':' then some [] else none
]

abbrev has_code : ℕ → Text → Bool
has_code x [] = false
has_code x (c ∷ cs) = c == x || has_code x cs

-- The text before a closing bracket at the end.
abbrev before_bracket : Text → Text
before_bracket [] = []
before_bracket (c ∷ cs) = let rest = before_bracket cs in if c == b']' then [] else c ∷ rest

abbrev unbracket : Text → Text
unbracket [] = []
unbracket (c ∷ cs) =
    if c == b'[' then before_bracket cs else if has_code b':' (c ∷ cs) then [] else c ∷ cs

-- The host of net.SplitHostPort, empty on an error, for an address as net/http gives it: host:port,
-- with an IPv6 host in brackets.
unfoldable pub split_host : Text → Text
split_host addr = elim (before_colon addr) [ none ↦ [] | some h ↦ unbracket h ]

abbrev host_of : Text → Text
host_of addr = elim (split_host addr) [ [] ↦ addr | c ∷ cs ↦ c ∷ cs ]

-- `if host != "" { ch.hlsViewed(host) }`
abbrev note_view : Text → ℕ → Channel → Channel
note_view [] now ch = ch
note_view (c ∷ cs) now ch = hls_viewed (c ∷ cs) now ch

-- ServeHLS: the view is noted first, and then the output looked for.
unfoldable pub serve_hls : Text → ℕ → Text → Manager → Manager × Option ℕ
unfolding split_host
serve_hls remote_addr now name m = elim (channel m name) [
  | none ↦ (m, none)
  | some ch ↦
      let viewed = note_view (host_of remote_addr) now in
      (update name viewed m, get_hls (some (viewed ch)))
]

-- strings.Split(s, "/")[0]
abbrev pub first_part : Text → Text
first_part [] = []
first_part (c ∷ cs) = let rest = first_part cs in if c == b'/' then [] else c ∷ rest

abbrev pub trim_slash : Text → Text
trim_slash [] = []
trim_slash (c ∷ cs) = if c == b'/' then cs else c ∷ cs

-- GetRTSPSource, on the path of the URL.
unfoldable pub get_rtsp_source : Manager → Text → Option ℕ
get_rtsp_source m path = queue true (channel m (first_part (trim_slash path)))

-- model.ChannelInfo, as far as PopulateLive goes.
pub record ChannelInfo : Type 0 where
  pub name : Text
  pub live : Bool
  pub viewers : ℤ
  pub rtc : Bool

abbrev pub populate : ChannelInfo → Option Channel → ChannelInfo
populate info none = info
populate info (some ch) = record info {
  live = is_live (some ch);
  viewers = current_viewers ch;
  rtc = ch.rtc;
}

unfoldable pub populate_live : Manager → List ChannelInfo → List ChannelInfo
populate_live m infos = map (λ (i : ChannelInfo). populate i (channel m i.name)) infos
