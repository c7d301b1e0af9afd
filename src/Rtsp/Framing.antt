-- ===== src/Rtsp/Framing.antt =====
-- sinks/rtsp/framing.go: timestamps and payloads of the packets that a track sends.
-- The packetizer of pion/rtp, the marshalling of its packets and the socket are parameters.
use gunk.Base.{
  ℕ, ◌+◌, ◌-◌, ◌%◌, ◌^◌, ◌<◌, All, ◌≡◌, refl, Bool, true, Option, none, some, List, [], ◌∷◌, arith,
  if◌then◌else◌, Text,
}
use gunk.Avcc.{write_annexb_packet}
use gunk.Ticks.{to_ts}

pub record Framer : Type 0 where
  pub ts : ℕ
  pub got : Bool

-- uint32(ts - f.ts), a difference of 64-bit words that is cut to 32 bits.
abbrev pub diff32 : ℕ → ℕ → ℕ
diff32 ts last = (ts + (2 ^ 64 - last)) % 2 ^ 64 % 2 ^ 32

-- delta, behind the conversion of the time to ticks.
unfoldable pub delta_ticks : Framer → ℕ → Framer × ℕ
delta_ticks f ts = (record f { ts = ts; got = true }, if f.got then diff32 ts f.ts else 0)

-- delta: `none` if internal.ToTS panics.
unfoldable pub delta : Framer → ℕ → ℕ → Option (Framer × ℕ)
unfolding to_ts delta_ticks
delta f t rate = elim (to_ts t rate) [ none ↦ none | some ts ↦ some (delta_ticks f ts) ]

-- av.CodecData, as repack tells it apart: H.264 with its SPS and its PPS, or another codec.
pub data CodecData : Type 0 where
  h264 : Text → Text → CodecData
  other : CodecData

-- The av.Packet.
pub record Packet : Type 0 where
  pub body : Text
  pub is_keyframe : Bool
  pub time : ℕ

module _ (split_nalus : Text → List Text) where
  unfoldable pub repack : Packet → CodecData → Text
  unfolding write_annexb_packet
  repack pkt (h264 sps pps) = write_annexb_packet split_nalus [] pkt.body pkt.is_keyframe sps pps
  repack pkt other = pkt.body

  -- What a packet is given to the packetizer as: its payload and its samples.
  unfoldable pub framed : Framer → Packet → CodecData → ℕ → Option (Framer × Text × ℕ)
  unfolding delta repack
  framed f pkt info rate = elim (delta f pkt.time rate) [
    | none ↦ none
    | some (f, samples) ↦ some (f, repack pkt info, samples)
  ]

-- The samples of packets, by their times in ticks.
abbrev pub all_samples : Framer → List ℕ → List ℕ
all_samples f [] = []
all_samples f (ts ∷ times) = let (f, samples) = delta_ticks f ts in samples ∷ all_samples f times

abbrev pub sum : List ℕ → ℕ
sum [] = 0
sum (n ∷ ns) = n + sum ns

abbrev pub last_of : ℕ → List ℕ → ℕ
last_of t [] = t
last_of t (u ∷ us) = last_of u us

diff32-add :
    (a b s e : ℕ)
    → a < 2 ^ 64
    → b < 2 ^ 64
    → (b + s) % 2 ^ 32 ≡ e % 2 ^ 32
    → (a + (diff32 b a + s)) % 2 ^ 32 ≡ e % 2 ^ 32
diff32-add a b s e ha hb h = omega arith

-- The samples of any packets after one that was framed add up, modulo 2^32, to the ticks between
-- that packet and the last one, in whatever order the times come and however far they are apart:
-- the receiver's RTP clock follows the 64-bit one.
pub samples_follow :
    (f : Framer) (times : List ℕ)
    → f.got ≡ true
    → f.ts < 2 ^ 64
    → All (λ ts. ts < 2 ^ 64) times
    → (f.ts + sum (all_samples f times)) % 2 ^ 32 ≡ last_of f.ts times % 2 ^ 32
unfolding delta_ticks
samples_follow f [] got small smalls = ground arith
samples_follow f (ts ∷ times) got small smalls =
    let follow = samples_follow (record f { ts = ts; got = true }) times refl smalls.0 smalls.1 in
    let rest = sum (all_samples (record f { ts = ts; got = true }) times) in
    rw got (diff32-add f.ts ts rest (last_of ts times) small smalls.0 follow)
