-- ===== src/Rtc/Sender.antt =====
-- sinks/playrtc/rtc.go: HandleSDP, and the goroutine that plays a channel to one browser. What pion
-- and the HTTP request do stands in the arguments. A packet is its stream's index and its data;
-- what a track writes of it is that of the framer, whose errors serve drops.
pub mod Delivery
use gunk.Base.{
  ℕ, zero, suc, ◌+◌, ◌%◌, ◌^◌, ◌≡◌, Bool, true, false, ◌&&◌, Option, none, some, List, [], ◌∷◌,
  ◌++◌, ltb, ◌==◌, if◌then◌else◌, Text, get_elem?,
}
use gunk.Ingest.Copy.{Read, packet, eof, failed}
use gunk.Rtsp.State.{Stream, h264, opus, unsupported}
use gunk.Rtc.Offer.{Attribute, Codec, Chosen, chosen, invalid, panics, choose_codec}

pub data Kind : Type 0 where
  video : Codec → Kind
  audio : Kind

-- rtsp.TrackFramer, with the SSRC of its webrtc.Track.
pub record Track : Type 0 where
  pub kind : Kind
  pub ssrc : ℕ  -- uint32

-- A stream of the source, and whether pion makes a track for it and adds it.
pub record Given : Type 0 where
  pub stream : Stream
  pub made : Bool
  pub added : Bool

abbrev pub kind_of : Codec → Stream → Option Kind
kind_of c h264 = some (video c)
kind_of c opus = some audio
kind_of c unsupported = none

abbrev pub with_track :
    Option Kind → ℕ → Bool → Option (List (Option Track)) → Option (List (Option Track))
with_track none ssrc ok rest = none
with_track (some kind) ssrc false rest = none
with_track (some kind) ssrc true none = none
with_track (some kind) ssrc true (some tracks) =
    some (some (record { kind = kind; ssrc = ssrc }) ∷ tracks)

-- The loop of setupTracks; `ssrc++` wraps.
unfoldable pub add_tracks : Codec → ℕ → List Given → Option (List (Option Track))
add_tracks c ssrc [] = some []
add_tracks c ssrc (g ∷ gs) =
    let rest = add_tracks c ((ssrc + 1) % 2 ^ 32) gs in
    with_track (kind_of c g.stream) ssrc (g.made && g.added) rest

-- setupTracks: the answer is made when the tracks are there.
unfoldable pub setup_tracks : Codec → ℕ → List Given → Bool → Option (List (Option Track))
unfolding add_tracks
setup_tracks c ssrc gs answered = elim (add_tracks c ssrc gs) [
  | none ↦ none
  | some tracks ↦ if answered then some tracks else none
]

-- A request, and what the other packages do about it.
pub record Request : Type 0 where
  pub body_read : Bool
  pub is_offer : Bool
  pub streams : Option (List Given)
  pub parsed : Option (List (List Attribute))
  pub peer_made : Bool
  pub random : ℕ
  pub answered : Bool  -- SetRemoteDescription, CreateAnswer and SetLocalDescription
  pub marshalled : Bool

-- How HandleSDP ends: with an error and perhaps a connection that it closes, with the status 400,
-- in a panic, or with the goroutine that serves the tracks.
pub data Handled : Type 0 where
  fails : Handled
  fails_closed : Handled
  refused : Handled
  crashes : Handled
  serves : List (Option Track) → Handled

abbrev pub answer : Request → Option (List (Option Track)) → Handled
answer r none = fails_closed
answer r (some tracks) = if r.marshalled then serves tracks else fails_closed

abbrev pub with_codec : Request → List Given → Chosen → Handled
with_codec r gs invalid = refused
with_codec r gs panics = crashes
with_codec r gs (chosen c) =
    if r.peer_made then answer r (setup_tracks c r.random gs r.answered) else fails

abbrev pub with_streams : Request → Option (List Given) → Handled
with_streams r none = fails
with_streams r (some gs) = with_codec r gs (choose_codec r.parsed)

-- HandleSDP
unfoldable pub handle_sdp : Request → Handled
unfolding setup_tracks
handle_sdp r =
    if r.body_read then (if r.is_offer then with_streams r r.streams else refused) else fails

-- The first loop of serve, over the states of the connection that come; `connected` is the number
-- of ICEConnectionStateConnected.
pub data Waited : Type 0 where
  waits : Waited
  gives_up : Waited
  connects : Waited

unfoldable pub await : ℕ → List ℕ → Waited
await connected [] = waits
await connected (st ∷ states) =
    let rest = await connected states in
    if st == connected then connects else if ltb connected st then gives_up else rest

module _ {ℓ} (Data : Type ℓ) where
  -- A round of the second loop: a state that has come, if any, and what ReadPacket gives.
  pub record Round : Type ℓ where
    pub state : Option ℕ
    pub read : Read (ℕ × Data)

-- How serve ends, if it does.
pub data Outcome : Type 0 where
  running : Outcome
  finished : Outcome
  read_error : Outcome
  not_connected : Outcome
  crashed : Outcome

abbrev pub has_ended : Outcome → Bool
has_ended running = false
has_ended _ = true

-- The check whether the browser is still connected.
abbrev pub still_connected : ℕ → Option ℕ → Bool
still_connected connected none = true
still_connected connected (some st) = st == connected

-- What is sent, how it ends, and whether the deferred calls have closed the connection and counted
-- the viewer out.
pub record Served {ℓ} (Data : Type ℓ) : Type ℓ where
  pub sent : List (Track × Data)
  pub outcome : Outcome
  pub closed : Bool

module _ {ℓ} {Data : Type ℓ} where
  abbrev pub ends : Outcome → Served Data
  ends o = record { sent = []; outcome = o; closed = has_ended o }

  -- `s.tracks[int(packet.Idx)]` panics out of range.
  abbrev pub send : Option (Option Track) → Data → Served Data → Served Data
  send none d rest = ends crashed
  send (some none) d rest = rest
  send (some (some t)) d rest = record rest { sent = (t, d) ∷ rest.sent }

  abbrev pub on_read : List (Option Track) → Read (ℕ × Data) → Served Data → Served Data
  on_read tracks eof rest = ends finished
  on_read tracks failed rest = ends read_error
  on_read tracks (packet (idx, d)) rest = send (get_elem? tracks idx) d rest

  -- The second loop.
  unfoldable pub play : ℕ → List (Option Track) → List (Round Data) → Served Data
  play connected tracks [] = ends running
  play connected tracks (r ∷ rs) =
      let rest = play connected tracks rs in
      if still_connected connected r.state then on_read tracks r.read rest else ends finished

  unfoldable pub serve : ℕ → List (Option Track) → List ℕ → List (Round Data) → Served Data
  unfolding await play
  serve connected tracks states rounds = elim (await connected states) [
    | waits ↦ ends running
    | gives_up ↦ ends not_connected
    | connects ↦ play connected tracks rounds
  ]
