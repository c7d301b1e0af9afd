-- ===== src/Rtc/Offer.antt =====
-- sinks/playrtc/rtc.go: chooseCodec, the H.264 payload type that a browser's offer asks for. The
-- SDP parser of pion is a parameter: here are the attributes of the media descriptions that it
-- gives. A value is a list of bytes; both characters that it is searched for are ASCII.
pub mod Index
pub mod Rtpmap
pub mod Best
pub mod Types
pub mod Choice
use gunk.Base.{
  ℕ, suc, ◌+◌, Bool, true, false, ◌||◌, Option, none, some, List, [], ◌∷◌, ltb, ◌==◌, if◌then◌else◌,
  Text, codes, text_eq, take, drop, map,
}
use gunk.Ftl.Words.{parse_uint}

pub record Attribute : Type 0 where
  pub key : Text
  pub value : Text

-- strings.IndexRune for an ASCII character; `none` is -1.
abbrev pub next_index : Option ℕ → Option ℕ
next_index none = none
next_index (some i) = some (suc i)

unfoldable pub index : ℕ → Text → Option ℕ
index x [] = none
index x (c ∷ cs) = let rest = next_index (index x cs) in if c == x then some 0 else rest

abbrev pub add_h264 : Text → Text → List Text → List Text
add_h264 payload_type name types =
    if text_eq name (codes "H264") then payload_type ∷ types else types

-- What is done with the places of the space and of the slash. With a slash and no space the slice
-- up to -1 panics, which is `none`.
abbrev pub note_at : Text → Option ℕ → Option ℕ → List Text → Option (List Text)
note_at value i none types = some types
note_at value none (some j) types = none
note_at value (some i) (some j) types =
    if ltb j i
    then some types
    else some (add_h264 (take i value) (drop (suc i) (take j value)) types)

-- A round of the first inner loop.
unfoldable pub note_rtpmap : Attribute → List Text → Option (List Text)
unfolding index
note_rtpmap a types =
    if text_eq a.key (codes "rtpmap")
    then note_at a.value (index b' ' a.value) (index b'/' a.value) types
    else some types

unfoldable pub h264_types : List Attribute → List Text → Option (List Text)
h264_types [] types = some types
h264_types (a ∷ attrs) types = elim (note_rtpmap a types) [
  | none ↦ none
  | some noted ↦ h264_types attrs noted
]

-- webrtc.RTPCodec, as far as it is made here.
pub record Codec : Type 0 where
  pub payload_type : ℕ
  pub fmtp : Text

abbrev pub contains : Text → List Text → Bool
contains t [] = false
contains t (u ∷ us) = text_eq u t || contains t us

-- `if candidate == nil || candidate.PayloadType > pti`
abbrev pub better : Option Codec → Codec → Option Codec
better none c = some c
better (some best) c = if ltb c.payload_type best.payload_type then some c else some best

abbrev pub numbered : Option ℕ → Text → Option Codec
numbered none fmtp = none
numbered (some pti) fmtp = some (record { payload_type = pti; fmtp = fmtp })

-- The codec of an fmtp attribute, if its payload type is one of the types and a number.
abbrev pub codec_at : List Text → Text → Option ℕ → Option Codec
codec_at types value none = none
codec_at types value (some i) =
    if contains (take i value) types
    then numbered (parse_uint (take i value) 8) (drop (suc i) value)
    else none

unfoldable pub codec_of : List Text → Attribute → Option Codec
unfolding index
codec_of types a =
    if text_eq a.key (codes "fmtp") then codec_at types a.value (index b' ' a.value) else none

abbrev pub consider : Option Codec → Option Codec → Option Codec
consider best none = best
consider best (some c) = better best c

-- The second inner loop.
unfoldable pub best_codec : List Text → List Attribute → Option Codec → Option Codec
unfolding codec_of
best_codec types [] best = best
best_codec types (a ∷ attrs) best = best_codec types attrs (consider best (codec_of types a))

-- `if len(h264Types) == 0 { continue }`
abbrev pub in_media : List Text → List Attribute → Option Codec → Option Codec
in_media [] attrs best = best
in_media (t ∷ ts) attrs best = best_codec (t ∷ ts) attrs best

-- The outer loop: the candidate behind all media descriptions, or none for a panic.
unfoldable pub candidate : List (List Attribute) → Option Codec → Option (Option Codec)
unfolding h264_types best_codec
candidate [] best = some best
candidate (attrs ∷ media) best = elim (h264_types attrs []) [
  | none ↦ none
  | some types ↦ candidate media (in_media types attrs best)
]

-- rtsp.H264Codec
abbrev pub default_codec : Codec
default_codec = record {
  payload_type = 102;
  fmtp = codes "profile-level-id=42e01f;level-asymmetry-allowed=1;packetization-mode=1";
}

pub data Chosen : Type 0 where
  chosen : Codec → Chosen
  invalid : Chosen
  panics : Chosen

abbrev pub chosen_of : Option (Option Codec) → Chosen
chosen_of none = panics
chosen_of (some none) = chosen default_codec
chosen_of (some (some c)) = chosen c

-- chooseCodec, on what the SDP parser gives.
unfoldable pub choose_codec : Option (List (List Attribute)) → Chosen
unfolding candidate
choose_codec none = invalid
choose_codec (some media) = chosen_of (candidate media none)
