-- ===== src/Ftl/Deframer.antt =====
-- ingest/ftl/deframing.go: RTP payloads to media packets.
-- A byte slice is a list of bytes held by value. `p.fbuf.Bytes()` shares the buffer's memory in the
-- source: an SPS or PPS kept from a reassembled unit may be overwritten there by later fragments,
-- and a STAP-A unit read from the buffer by fragments of its own, which the model does not show.
-- Go's recursion has no bound; here it takes fuel, and `none` is a call that has not returned.
pub mod Clock
pub mod Fragments
pub mod Aggregates
pub mod Returns
use gunk.Base.{
  ℕ, zero, suc, ◌+◌, ◌*◌, ◌/◌, ◌%◌, ◌^◌, ◌≤◌, ◌<◌, ◌≡◌, refl, Bool, true, false, ◌&&◌, Option, none,
  some, List, [], ◌∷◌, ◌++◌, arith, ltb, leb, ◌==◌, not, if◌then◌else◌, Text, length, take, drop,
  map,
}
use gunk.Ticks.{from_ts}
use gunk.Avcc.{nalu_to_avcc}

-- av.Packet of joy4, as far as the program uses it. Time is the 64-bit pattern of a time.Duration.
pub record Packet : Type 0 where
  pub idx : ℕ  -- int8
  pub is_keyframe : Bool
  pub time : ℕ
  pub body : Text

-- What a parser or a reader may fail with.
pub data Error : Type 0 where
  too_short : Error
  bad_rtp : Error
  bad_codec : Error
  eof : Error
  timed_out : Error

pub data Result {ℓ} (A : Type ℓ) : Type ℓ where
  ok : A → Result A
  err : Error → Result A

-- H264Parser. A nil slice is `none`; the field `pkt` of the source is never used.
pub record H264Parser : Type 0 where
  pub sps : Option Text
  pub pps : Option Text
  pub fbuf : Text

abbrev pub new_h264 : H264Parser
new_h264 = record { sps = none; pps = none; fbuf = [] }

-- What ParseFrame leaves and returns; `none` if it has not returned.
abbrev pub Parsed : Type 0
Parsed = Option (H264Parser × Result (List Packet))

-- The fields of the octets: b & 0x1f, b & 0x80 != 0, b & 0x40 != 0, a & 0xe0 | b & 0x1f.
abbrev pub nalu_type : ℕ → ℕ
nalu_type b = b % 32

abbrev pub is_start : ℕ → Bool
is_start b = b / 128 % 2 == 1

abbrev pub is_end : ℕ → Bool
is_end b = b / 64 % 2 == 1

abbrev pub fu_octet : ℕ → ℕ → ℕ
fu_octet indicator header = indicator / 32 % 8 * 32 + header % 32

-- The `default` of the switch: one packet, a keyframe if it is an IDR slice.
abbrev pub plain_packet : ℕ → Text → Packet
plain_packet octet nalu = record {
  idx = 0;
  is_keyframe = nalu_type octet == 5;
  time = 0;
  body = nalu_to_avcc nalu;
}

-- The buffer after a fragment: started over by the start bit, and appended to unless empty.
unfoldable pub accumulate : Text → ℕ → ℕ → Text → Text
accumulate fbuf indicator header payload =
    let started = if is_start header then fu_octet indicator header ∷ [] else fbuf in
    elim started [ [] ↦ [] | b ∷ bs ↦ b ∷ bs ++ payload ]

-- What follows the call on one aggregated unit: an error stops the loop.
abbrev pub stap_next : (H264Parser → List Packet → Parsed) → Parsed → Parsed
stap_next go none = none
stap_next go (some (p, err e)) = some (p, err e)
stap_next go (some (p, ok more)) = go p more

-- The loop over the aggregated units, with the recursive call of ParseFrame as an argument.
-- `rounds` bounds the rounds: the packet's length is enough, since each round takes two bytes or
-- more.
unfoldable pub stap_loop :
    (H264Parser → Text → Parsed) → ℕ → H264Parser → Text → List Packet → Parsed
stap_loop parse zero p packet packets = some (p, ok packets)
stap_loop parse (suc rounds) p [] packets = some (p, ok packets)
stap_loop parse (suc rounds) p (_ ∷ []) packets = some (p, ok packets)
stap_loop parse (suc rounds) p (hi ∷ lo ∷ rest) packets =
    let size = hi * 256 + lo in
    let unit = parse p (take size rest) in
    let go = λ (q : H264Parser) (more : List Packet).
      stap_loop parse rounds q (drop size rest) (packets ++ more) in
    if ltb (length rest) size then some (p, ok packets) else stap_next go unit

-- The deferred p.fbuf.Reset().
abbrev pub reset_after : Parsed → Parsed
reset_after none = none
reset_after (some (p, r)) = some (record p { fbuf = [] }, r)

-- A fragment once the buffer is up to date: the end bit parses the whole unit.
abbrev pub fu_done : (H264Parser → Text → Parsed) → H264Parser → ℕ → Text → Parsed
fu_done parse p header [] = some (record p { fbuf = [] }, ok [])
fu_done parse p header (b ∷ bs) =
    let q = record p { fbuf = b ∷ bs } in
    let whole = parse q (b ∷ bs) in if is_end header then reset_after whole else some (q, ok [])

-- A FU-A fragment: indicator, header and payload.
unfoldable pub fu_a : (H264Parser → Text → Parsed) → H264Parser → ℕ → ℕ → Text → Parsed
fu_a parse p indicator header payload =
    fu_done parse p header (accumulate p.fbuf indicator header payload)

-- ParseFrame of H264Parser.
unfoldable pub parse_frame : ℕ → H264Parser → Text → Parsed
parse_frame zero p packet = none
parse_frame (suc fuel) p [] = some (p, err too_short)
parse_frame (suc fuel) p (_ ∷ []) = some (p, err too_short)
parse_frame (suc fuel) p (b ∷ c ∷ rest) =
    let parse = parse_frame fuel in
    if nalu_type b == 7
    then some (record p { sps = some (b ∷ c ∷ rest) }, ok [])
    else if nalu_type b == 8
    then some (record p { pps = some (b ∷ c ∷ rest) }, ok [])
    else if nalu_type b == 28
    then fu_a parse p b c rest
    else if nalu_type b == 24
    then stap_loop parse (length (c ∷ rest)) p (c ∷ rest) []
    else some (p, ok (plain_packet b (b ∷ c ∷ rest) ∷ []))

-- The two Parsers of the source. NullParser hands the payload on; its Info never changes.
pub data Parser : Type 0 where
  h264 : H264Parser → Parser
  null_parser : Parser

-- How a call ends: with a result, with a run-time panic, or not within the fuel.
pub data Run {ℓ} (A : Type ℓ) : Type ℓ where
  returned : A → Run A
  panicked : Run A
  unfinished : Run A

pub record Deframer : Type 0 where
  pub ssrc : ℕ  -- uint32
  pub payload_type : ℕ  -- uint8
  pub clock_rate : ℕ  -- uint64
  pub parser : Parser
  pub base_ts : ℕ  -- uint64
  pub last_ts : ℕ  -- uint32
  pub last_seq : ℕ  -- uint16

-- rtp.Packet of pion, as far as the program reads it.
pub record RtpPacket : Type 0 where
  pub ssrc : ℕ  -- uint32
  pub payload_type : ℕ  -- uint8
  pub sequence_number : ℕ  -- uint16
  pub timestamp : ℕ  -- uint32
  pub payload : Text

abbrev pub lift_h264 : Parsed → Run (Parser × Result (List Packet))
lift_h264 none = unfinished
lift_h264 (some (p, r)) = returned (h264 p, r)

-- Parser.ParseFrame, by dynamic dispatch.
unfoldable pub parse_payload : ℕ → Parser → Text → Run (Parser × Result (List Packet))
parse_payload fuel (h264 p) payload = lift_h264 (parse_frame fuel p payload)
parse_payload fuel null_parser payload =
    returned
      (null_parser, ok (record { idx = 0; is_keyframe = false; time = 0; body = payload } ∷ []))

-- `packets[i].Time = t` for each packet; an error comes with no packets.
abbrev pub stamp : ℕ → Result (List Packet) → Result (List Packet)
stamp t (ok packets) = ok (map (λ (q : Packet). record q { time = t }) packets)
stamp t (err e) = err e

-- The base after a packet: one turn of the 32-bit clock more if the timestamp fell into its lower
-- half.
unfoldable pub advance_base : ℕ → ℕ → ℕ → ℕ
advance_base base last timestamp =
    if ltb timestamp last && ltb timestamp (2 ^ 31) then (base + 2 ^ 32) % 2 ^ 64 else base

-- The end of Deframe: the parser is stored through its pointer.
abbrev pub stamped :
    Deframer → ℕ → Run (Parser × Result (List Packet)) → Run (Deframer × Result (List Packet))
stamped f t (returned (p, r)) = returned (record f { parser = p }, stamp t r)
stamped f t panicked = panicked
stamped f t unfinished = unfinished

-- Deframe. The sequence number is only stored, and a gap logged.
unfoldable pub deframe : ℕ → Deframer → RtpPacket → Run (Deframer × Result (List Packet))
deframe fuel f rp =
    let base = advance_base f.base_ts f.last_ts rp.timestamp in
    let g = record f { last_seq = rp.sequence_number; base_ts = base; last_ts = rp.timestamp } in
    elim (from_ts ((base + rp.timestamp) % 2 ^ 64) f.clock_rate) [
      | none ↦ panicked
      | some t ↦ stamped g t (parse_payload fuel f.parser rp.payload)
    ]
