-- ===== src/Thumbs.antt =====
-- sinks/grabber/grabber.go: thumbnails of a channel's key frames. The parser of joy4 is a record of
-- functions; ffmpeg and the database get the bytes of a Grab, and what they make of them is only
-- logged. The two readings of the clock, and whether the reader of the results has room, come with
-- each packet. Times of packets are 64-bit patterns, clock readings nanoseconds.
pub mod Pictures
pub mod Follows
pub mod Pacing
use gunk.Base.{
  ℕ, zero, suc, ◌+◌, ◌-◌, ◌*◌, ◌%◌, ◌^◌, Bool, true, false, not, ◌&&◌, ◌||◌, Option, none, some,
  List, [], ◌∷◌, ltb, leb, ◌==◌, if◌then◌else◌, Text, length,
}
use gunk.Avcc.{write_annexb_packet}
use gunk.Ingest.Copy.{Read, packet, eof, failed}

abbrev pub second : ℕ
second = 1000000000

abbrev pub grab_interval : ℕ
grab_interval = 10 * second

-- h264parser: SplitNALUs, IsDataNALU, and whether the slice header is of a B slice.
pub record Parser : Type 0 where
  pub split_nalus : Text → List Text
  pub is_data_nalu : Text → Bool
  pub is_b_slice : Text → Bool

-- A stream, with the SPS and the PPS of its codec data if it is H.264.
pub data Stream : Type 0 where
  h264 : Text → Text → Stream
  other : Stream

-- vidIdx and vidCodec.
pub record Video : Type 0 where
  pub idx : ℕ
  pub sps : Text
  pub pps : Text

-- The loop over the streams: the last H.264 stream is kept.
unfoldable pub find_video : ℕ → Option Video → List Stream → Option Video
find_video i found [] = found
find_video i found (h264 sps pps ∷ streams) =
    find_video (suc i) (some (record { idx = i; sps = sps; pps = pps })) streams
find_video i found (other ∷ streams) = find_video (suc i) found streams

-- An av.Packet, and what the clock reads before and after a frame is made of the ones before it.
pub record Input : Type 0 where
  pub idx : ℕ
  pub is_keyframe : Bool
  pub time : ℕ
  pub body : Text
  pub now : ℕ
  pub after : ℕ
  pub has_room : Bool

-- The variables of the goroutine; a zero lastGrab is `none`.
pub record Grabber : Type 0 where
  pub buf : Text
  pub key_time : ℕ
  pub last_grab : Option ℕ
  pub last_bframe : ℕ

abbrev pub initial : Grabber
initial = record { buf = []; key_time = 0; last_grab = none; last_bframe = 0 }

-- A call of makeFrame, and the Result that follows it.
pub record Grab : Type 0 where
  pub raw : Text
  pub time : ℕ
  pub has_bframes : Bool
  pub told : Bool

-- `time.Since(lastGrab) >= grabInterval`
abbrev pub is_due : Option ℕ → ℕ → Bool
is_due none now = true
is_due (some t) now = leb (t + grab_interval) now

abbrev pub make_grab : Grabber → Input → Grab
make_grab s i = record {
  raw = s.buf;
  time = i.after;
  has_bframes = not (s.last_bframe == 0);
  told = i.has_room;
}

-- A buffered key frame is over when another picture begins.
unfoldable pub flush : Grabber → Input → Grabber × Option Grab
flush s i =
    if not (length s.buf == 0) && (not i.is_keyframe || not (i.time == s.key_time))
    then (if is_due s.last_grab i.now
        then (record s { buf = []; last_grab = some i.after }, some (make_grab s i))
        else (record s { buf = [] }, none))
    else (s, none)

-- The loop over the NAL units, which looks for B slices.
unfoldable pub note_bframes : Parser → ℕ → ℕ → List Text → ℕ
note_bframes h time last [] = last
note_bframes h time last (nalu ∷ nalus) =
    note_bframes h time (if h.is_data_nalu nalu && h.is_b_slice nalu then time else last) nalus

-- `pkt.Time-lastBframe > 30*time.Second`, on signed 64-bit numbers.
abbrev pub is_stale : ℕ → ℕ → Bool
is_stale time last =
    let d = (time + (2 ^ 64 - last)) % 2 ^ 64 in ltb d (2 ^ 63) && ltb (30 * second) d

abbrev pub expire : ℕ → ℕ → ℕ
expire time last = if not (last == 0) && is_stale time last then 0 else last

unfoldable pub take_in : Parser → Video → Grabber → Input → Grabber
unfolding note_bframes write_annexb_packet
take_in h v s i =
    if i.is_keyframe
    then record s {
      buf = write_annexb_packet h.split_nalus s.buf i.body true v.sps v.pps;
      key_time = i.time;
    }
    else record s {
      last_bframe = expire i.time (note_bframes h i.time s.last_bframe (h.split_nalus i.body));
    }

-- The body of the loop.
unfoldable pub step : Parser → Video → Grabber → Input → Grabber × Option Grab
unfolding flush take_in
step h v s i = if i.idx == v.idx then (take_in h v (flush s i).0 i, (flush s i).1) else (s, none)

-- The grabs, and whether the channel of results is closed.
pub record Grabs : Type 0 where
  pub grabs : List Grab
  pub closed : Bool

abbrev pub with_grab : Option Grab → Grabs → Grabs
with_grab none gs = gs
with_grab (some g) gs = record gs { grabs = g ∷ gs.grabs }

unfoldable pub run : Parser → Video → Grabber → List (Read Input) → Grabs
unfolding step
run h v s [] = record { grabs = []; closed = false }
run h v s (eof ∷ _) = record { grabs = []; closed = true }
run h v s (failed ∷ _) = record { grabs = []; closed = true }
run h v s (packet i ∷ rest) = with_grab (step h v s i).1 (run h v (step h v s i).0 rest)

abbrev pub run_from : Parser → List (Read Input) → Option Video → Option Grabs
run_from h reads none = none
run_from h reads (some v) = some (run h v initial reads)

-- Grab: `none` for an error, of the streams or since none is H.264.
unfoldable pub grab : Parser → Option (List Stream) → List (Read Input) → Option Grabs
unfolding find_video run
grab h none reads = none
grab h (some streams) reads = run_from h reads (find_video 0 none streams)
