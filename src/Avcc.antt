-- ===== src/Avcc.antt =====
-- h264util/h264.go: NAL units in AVCC and in Annex B form. The H.264 parser of joy4 (SplitNALUs,
-- and the SPS and PPS of its codec data) is a parameter.
use gunk.Base.{
  true, false, ℕ, ◌+◌, ◌*◌, ◌%◌, ◌^◌, ◌<◌, ◌≡◌, Bool, Option, none, some, List, [], ◌∷◌, ◌++◌,
  arith, leb, take-append_length, drop-append_length, sym, ◌∙◌, append-nil, if◌then◌else◌, Text,
  be32, length, take, drop, append_assoc, length-append,
}

-- NALUToAVCC: four bytes of length in front; uint32(len(nalu)) wraps.
unfoldable pub nalu_to_avcc : Text → Text
nalu_to_avcc nalu = be32 (length nalu % 2 ^ 32) ++ nalu

annexb_start : Text
annexb_start = 0 ∷ 0 ∷ 1 ∷ []

-- WriteAnnexB: the buffer after each NAL unit is written behind its start code.
unfoldable pub write_annexb : Text → List Text → Text
unfolding annexb_start
write_annexb w [] = w
write_annexb w (nalu ∷ nalus) = write_annexb ((w ++ annexb_start) ++ nalu) nalus

module _ (split_nalus : Text → List Text) where
  -- WriteAnnexBPacket: a keyframe carries the SPS and the PPS in front.
  unfoldable pub write_annexb_packet : Text → Text → Bool → Text → Text → Text
  unfolding write_annexb
  write_annexb_packet w body is_keyframe sps pps =
      let nalus = split_nalus body in
      write_annexb w (if is_keyframe then sps ∷ pps ∷ nalus else nalus)

-- An independent reader of AVCC: the length field, then that many bytes. `none` on a short input.
abbrev pub read_be32 : Text → Option (ℕ × Text)
read_be32 (a ∷ b ∷ c ∷ d ∷ rest) = some (a * 16777216 + b * 65536 + c * 256 + d, rest)
read_be32 _ = none

abbrev pub read_avcc : Text → Option (Text × Text)
read_avcc b = elim (read_be32 b) [
  | none ↦ none
  | some (n, rest) ↦ if leb n (length rest) then some (take n rest, drop n rest) else none
]

-- An AVCC unit is read back as the NAL unit that it was made from, with the rest of the input
-- left over, if the NAL unit is shorter than 2^32 bytes.
pub read_avcc-nalu_to_avcc :
    (nalu rest : Text)
    → length nalu < 2 ^ 32
    → read_avcc (nalu_to_avcc nalu ++ rest) ≡ some (nalu, rest)
unfolding nalu_to_avcc be32
read_avcc-nalu_to_avcc nalu rest h =
    ground
      (arith, length-append nalu rest, take-append_length nalu rest, drop-append_length nalu rest)

-- The Annex B form of a list of NAL units, unit by unit.
abbrev pub annexb : List Text → Text
annexb [] = []
annexb (nalu ∷ nalus) = 0 ∷ 0 ∷ 1 ∷ nalu ++ annexb nalus

pub write_annexb_lem : (w : Text) (nalus : List Text) → write_annexb w nalus ≡ w ++ annexb nalus
unfolding write_annexb
write_annexb_lem w [] = sym (append-nil w)
write_annexb_lem w (nalu ∷ nalus) =
    write_annexb_lem ((w ++ 0 ∷ 0 ∷ 1 ∷ []) ++ nalu) nalus ∙ simp append_assoc

-- What is written for a packet is appended to the buffer: for a keyframe the SPS and the PPS come
-- first, each behind a start code, and otherwise the packet's own NAL units alone.
pub write_annexb_packet_lem :
    (split_nalus : Text → List Text) (w body : Text) (sps pps : Text)
    → (write_annexb_packet split_nalus w body true sps pps
        ≡ w ++ 0 ∷ 0 ∷ 1 ∷ sps ++ 0 ∷ 0 ∷ 1 ∷ pps ++ annexb (split_nalus body))
      × (write_annexb_packet split_nalus w body false sps pps ≡ w ++ annexb (split_nalus body))
unfolding write_annexb_packet
write_annexb_packet_lem split_nalus w body sps pps =
    (simp (write_annexb_lem, append_assoc), write_annexb_lem w _)
