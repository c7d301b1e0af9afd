-- ===== src/Ftl/Deframer/Fragments.antt =====
-- FU-A: a NAL unit cut into fragments (RFC 6184, 5.8) is put together again.
use gunk.Base.{
  ℕ, suc, ◌+◌, ◌*◌, ◌/◌, ◌%◌, ◌<◌, ◌≡◌, refl, ◌≢◌, true, false, List, [], ◌∷◌, ◌++◌, arith, Text,
  append_assoc, some, none, length,
}
use native.Mathlib.Nat.{add_comm}
use native.Mathlib.Numerals.{towards_suc}
use gunk.Ftl.Deframer.{
  H264Parser, Packet, ok, err, Parsed, nalu_type, is_start, is_end, fu_octet, accumulate, fu_a,
  parse_frame, plain_packet,
}

-- The payloads of a sender: the start bit on the first fragment and the end bit on the last.
abbrev indicator : ℕ → ℕ
indicator h = h / 32 * 32 + 28

abbrev pub first_fragment : ℕ → Text → Text
first_fragment h chunk = indicator h ∷ (128 + h % 32) ∷ chunk

abbrev pub next_fragment : ℕ → Text → Text
next_fragment h chunk = indicator h ∷ (h % 32) ∷ chunk

abbrev pub last_fragment : ℕ → Text → Text
last_fragment h chunk = indicator h ∷ (64 + h % 32) ∷ chunk

-- Payloads that arrive one after the other; the packets that they give are put together.
abbrev pub feed : ℕ → H264Parser → List Text → List Packet → Parsed
feed fuel p [] out = some (p, ok out)
feed fuel p (packet ∷ packets) out = elim (parse_frame fuel p packet) [
  | none ↦ none
  | some (q, err e) ↦ some (q, err e)
  | some (q, ok more) ↦ feed fuel q packets (out ++ more)
]

-- The octets of a sender, as the receiver takes them apart.
octets :
    (h : ℕ)
    → h < 256
    → (nalu_type (indicator h) ≡ 28)
      × (fu_octet (indicator h) (128 + h % 32) ≡ h)
      × (is_start (128 + h % 32) ≡ true)
      × (is_end (128 + h % 32) ≡ false)
      × (is_start (h % 32) ≡ false)
      × (is_end (h % 32) ≡ false)
      × (is_start (64 + h % 32) ≡ false)
      × (is_end (64 + h % 32) ≡ true)
octets h lt = ground arith

module _ (fuel : ℕ) (p : H264Parser) (h : ℕ) (byte : h < 256) where
  first :
      (chunk : Text)
      → parse_frame (suc fuel) p (first_fragment h chunk)
        ≡ some (record p { fbuf = h ∷ chunk }, ok [])
  unfolding parse_frame fu_a accumulate
  first chunk = ground (arith, octets h byte)

  next :
      (bs chunk : Text)
      → p.fbuf ≡ h ∷ bs
      → parse_frame (suc fuel) p (next_fragment h chunk)
        ≡ some (record p { fbuf = h ∷ bs ++ chunk }, ok [])
  unfolding parse_frame fu_a accumulate
  next bs chunk e = ground (arith, octets h byte)

  -- The whole unit is two bytes or more, of a type that the parser hands on.
  last :
      (bs chunk : Text)
      → (nalu_type h ≢ 7) × (nalu_type h ≢ 8) × (nalu_type h ≢ 24) × (nalu_type h ≢ 28)
      → p.fbuf ≡ h ∷ bs
      → 0 < length (bs ++ chunk)
      → parse_frame (suc (suc fuel)) p (last_fragment h chunk)
        ≡ some (record p { fbuf = [] }, ok (plain_packet h (h ∷ bs ++ chunk) ∷ []))
  unfolding parse_frame fu_a accumulate
  last bs chunk handed e long = ground (arith, octets h byte)

abbrev pub joined : List Text → Text
joined [] = []
joined (c ∷ cs) = c ++ joined cs

-- The fragments behind the first one.
abbrev rest_fragments : ℕ → List Text → Text → List Text
rest_fragments h [] end = last_fragment h end ∷ []
rest_fragments h (c ∷ cs) end = next_fragment h c ∷ rest_fragments h cs end

abbrev pub fragments : ℕ → Text → List Text → Text → List Text
fragments h start middle end = first_fragment h start ∷ rest_fragments h middle end

abbrev pub IsHandedOn : ℕ → Type 0
IsHandedOn h = (nalu_type h ≢ 7) × (nalu_type h ≢ 8) × (nalu_type h ≢ 24) × (nalu_type h ≢ 28)

regroup : (a b c d : Text) → a ++ ((b ++ c) ++ d) ≡ (a ++ b) ++ (c ++ d)
regroup a b c d = simp append_assoc

feed_rest :
    (fuel : ℕ) (p : H264Parser) (h : ℕ) (bs : Text) (middle : List Text) (end : Text)
    → h < 256
    → IsHandedOn h
    → p.fbuf ≡ h ∷ bs
    → 0 < length (bs ++ (joined middle ++ end))
    → feed (suc (suc fuel)) p (rest_fragments h middle end) []
      ≡ some (record p { fbuf = [] }, ok (plain_packet h (h ∷ bs ++ (joined middle ++ end)) ∷ []))
feed_rest fuel p h bs [] end byte handed e long =
    ground (arith, last fuel p h byte bs end handed e long)
feed_rest fuel p h bs (c ∷ cs) end byte handed e long = ground (
  arith,
  next (suc fuel) p h byte bs c e,
  regroup bs c (joined cs) end,
  feed_rest fuel (record p { fbuf = h ∷ bs ++ c }) h (bs ++ c) cs end byte handed refl
      (rw (← regroup bs c (joined cs) end) long),
)

-- A NAL unit of two bytes or more, of a type that the parser hands on (not 7, 8, 24 or 28), that is
-- sent in two fragments or more gives exactly one packet, the one that the whole
-- unit gives, whatever was in the buffer before; the buffer is empty again.
pub feed-fragments :
    (fuel : ℕ) (p : H264Parser) (h : ℕ) (start : Text) (middle : List Text) (end : Text)
    → h < 256
    → IsHandedOn h
    → 0 < length (start ++ (joined middle ++ end))
    → feed (2 + fuel) p (fragments h start middle end) []
      ≡ some
          (record p { fbuf = [] }, ok (plain_packet h (h ∷ start ++ (joined middle ++ end)) ∷ []))
feed-fragments fuel p h start middle end byte handed long = rw (add_comm 2 fuel) (
    simp towards_suc (
      ground (
        arith,
        first (suc fuel) p h byte start,
        feed_rest fuel (record p { fbuf = h ∷ start }) h start middle end byte handed refl long,
      )))
