-- ===== src/Examples/Players.antt =====
-- The websockets, the WebRTC player, the thumbnails and the Opus conversion, at concrete inputs.
use gunk.Base.{
  ℕ, zero, suc, ◌≡◌, ◌≤◌, ◌⊎◌, ◌+◌, refl, inl, Bool, true, false, Option, none, some, List, [], ◌∷◌,
  ◌++◌, map, Text, codes, get_elem?, All, arith,
}
use gunk.Ingest.Copy.{Read, packet, eof}
use gunk.Rtsp.State.{h264, opus}
use gunk.Web.Listeners.{
  Client, Event, registers, greets, broadcasts, receives, cancels, run, new_client,
}
use gunk.Web.Listeners.Told.{IsTold}
use gunk.Web.Listeners.Stream.{stream_exact}
use gunk.Rtc.Offer.{Attribute, Codec, chosen, panics, default_codec, note_rtpmap, choose_codec}
use gunk.Ftl.Words.{parse_uint}
use gunk.Rtc.Offer.Choice.{panics_on, Offers, choose_codec_exact}
use gunk.Rtc.Sender.{
  Given, Track, video, audio, Request, handle_sdp, setup_tracks, add_tracks, serve,
}
use gunk.Rtc.Sender.Delivery.{Arrival, HasSent, due, arrives, serve-delivers}
use gunk.Thumbs as T
use gunk.Thumbs.Pictures.{video_packets, pictures, paced}
use gunk.Thumbs.Follows.{seen}
use gunk.Thumbs.Pacing.{IsOther, IsLast, IsSpaced, grab_exact, grab-IsSpaced}
use gunk.Opus.Convert.{encode_loop, encoded_all}
use gunk.Opus.Convert.Samples.{pcm, timed, encode_loop-pcm}

-- One connection is there already; the other registers, is greeted with 1, and is told of 2.
abbrev hub_events : List (Event ℕ)
hub_events = greets 1 (1 ∷ []) true ∷ broadcasts 2 ∷ receives 1 true ∷ cancels 0 ∷ []

stream_exact_example :
    (c : Client ℕ) × (get_elem? (run (new_client ∷ []) (registers ∷ hub_events)) 1 ≡ some c)
    × IsTold (1 ∷ 2 ∷ []) c
stream_exact_example = stream_exact (new_client ∷ []) hub_events

abbrev offered : List Attribute
offered =
    record { key = codes "rtpmap"; value = codes "126 H264/90000" }
    ∷ record { key = codes "fmtp"; value = codes "126 profile-level-id=42e01f" }
    ∷ []

choose_codec_exact_example :
    ((panics_on (offered ∷ []) ≡ true) × (choose_codec (some (offered ∷ [])) ≡ panics))
    ⊎ ((panics_on (offered ∷ []) ≡ false)
        × (c : Codec) × (choose_codec (some (offered ∷ [])) ≡ chosen c)
        × ((Offers (offered ∷ []) c
              × ((d : Codec) → Offers (offered ∷ []) d → c.payload_type ≤ d.payload_type))
            ⊎ ((c ≡ default_codec) × ((d : Codec) → ¬ Offers (offered ∷ []) d))))
choose_codec_exact_example = choose_codec_exact (offered ∷ [])

abbrev given : List Given
given =
    record { stream = h264; made = true; added = true }
    ∷ record { stream = opus; made = true; added = true }
    ∷ []

abbrev request : Request
request = record {
  body_read = true;
  is_offer = true;
  streams = some given;
  parsed = some (offered ∷ []);
  peer_made = true;
  random = 4294967295;
  answered = true;
  marshalled = true;
}

abbrev offered_codec : Codec
offered_codec = record { payload_type = 126; fmtp = codes "profile-level-id=42e01f" }

abbrev tracks : List (Option Track)
tracks =
    some (record { kind = video offered_codec; ssrc = 4294967295 })
    ∷ some (record { kind = audio; ssrc = 0 })
    ∷ []

abbrev arrivals : List (Arrival ℕ)
arrivals =
    record { state = none; idx = 1; payload = 5 }
    ∷ record { state = some 3; idx = 0; payload = 6 }
    ∷ []

serve-delivers_example :
    (c : Codec) × (choose_codec request.parsed ≡ chosen c)
    × HasSent (map (due c 4294967295 given) arrivals) (
        serve 3 tracks
          (1 ∷ 2 ∷ 3 ∷ [])
          (map arrives arrivals ++ record { state = some 6; read = eof } ∷ []))
unfolding handle_sdp setup_tracks add_tracks choose_codec note_rtpmap parse_uint
serve-delivers_example =
    serve-delivers request given tracks 3 (1 ∷ 2 ∷ []) [] arrivals
      (record { state = some 6; read = eof }) [] refl refl (omega arith)
      (omega arith, (omega arith, tt)) ((refl, omega arith), ((refl, omega arith), tt)) (inl refl)

-- Every packet is one NAL unit, and none is of a B slice.
abbrev parser : T.Parser
parser = record { split_nalus = λ b. b ∷ []; is_data_nalu = λ n. true; is_b_slice = λ n. false }

abbrev input : Bool → ℕ → ℕ → T.Input
input key time now = record {
  idx = 1;
  is_keyframe = key;
  time = time;
  body = 0x65 ∷ [];
  now = now;
  after = now + 5;
  has_room = true;
}

abbrev reads : List (Read T.Input)
reads =
    packet (input true 0 100)
    ∷ packet (input false 1 101)
    ∷ packet (input true 2 102)
    ∷ packet (input false 3 10000000106)
    ∷ eof
    ∷ []

abbrev sources : List T.Stream
sources = T.other ∷ T.h264 (0x67 ∷ []) (0x68 ∷ []) ∷ []

abbrev key_frame : Text
key_frame = 0 ∷ 0 ∷ 1 ∷ 0x67 ∷ 0 ∷ 0 ∷ 1 ∷ 0x68 ∷ 0 ∷ 0 ∷ 1 ∷ 0x65 ∷ []

grab_exact_example :
    ((T.grab parser (some sources) reads ≡ none) × All IsOther sources)
    ⊎ ((v : T.Video) × IsLast sources 0 v
        × (gs : T.Grabs) × (T.grab parser (some sources) reads ≡ some gs)
        × (map seen gs.grabs ≡ paced parser v none (pictures [] (video_packets v reads))))
grab_exact_example = grab_exact parser sources reads

abbrev grabbed : ℕ → T.Grab
grabbed t = record { raw = key_frame; time = t; has_bframes = false; told = true }

abbrev grabs : T.Grabs
grabs = record { grabs = grabbed 106 ∷ grabbed 10000000111 ∷ []; closed = true }

grab-IsSpaced_example : IsSpaced none (106 ∷ 10000000111 ∷ [])
unfolding T.grab T.find_video T.run T.step T.flush T.take_in T.note_bframes
grab-IsSpaced_example =
    grab-IsSpaced parser sources reads grabs
      (omega arith, (omega arith, (omega arith, (omega arith, (tt, tt))))) refl

-- An encoder that counts its frames, and 960 samples of silence.
abbrev count : ℕ → List ℕ → Option (Text × ℕ)
count n frame = some (n ∷ [], n + 1)

abbrev zeros : ℕ → List ℕ
zeros zero = []
zeros (suc n) = 0 ∷ zeros n

encode_loop-pcm_example :
    encode_loop count 1 1 0 0
      (pcm (zeros 960 ∷ zeros 960 ∷ []) (9 ∷ []))
      ((false, true, true) ∷ (false, true, true) ∷ (false, true, true) ∷ [])
    ≡ record { packets = timed 1 0 ((0 ∷ []) ∷ (1 ∷ []) ∷ []); outcome = encoded_all }
encode_loop-pcm_example =
    encode_loop-pcm count 1 1 (zeros 960 ∷ zeros 960 ∷ []) (9 ∷ []) 0 0 ((0 ∷ []) ∷ (1 ∷ []) ∷ [])
      ((false, true, true) ∷ (false, true, true) ∷ (false, true, true) ∷ []) (refl, (refl, tt))
      (omega arith) refl (refl, (refl, (refl, tt))) (omega arith)
