-- ===== src/Ftl/Deframer/Returns.antt =====
-- When ParseFrame returns: always within three nested calls on payloads as RFC 6184 has them, and
-- never on some others.
use gunk.Base.{
  ℕ, zero, suc, ◌+◌, ◌*◌, ◌≡◌, refl, ◌≢◌, true, false, List, [], ◌∷◌, ◌++◌, arith, Text, some, none,
  All, ltb, if◌then◌else◌, length, take, drop, inl, inr, Bool-cases,
}
use native.Mathlib.Nat.{add_comm}
use native.Mathlib.Numerals.{towards_suc}
use gunk.Ftl.Deframer.{
  H264Parser, Packet, Result, ok, err, Parsed, nalu_type, is_start, is_end, fu_octet, accumulate,
  stap_loop, fu_a, fu_done, stap_next, parse_frame, reset_after,
}

-- A type octet that announces neither an aggregate nor a fragment.
abbrev pub IsPlain : ℕ → Type 0
IsPlain b = (nalu_type b ≢ 24) × (nalu_type b ≢ 28)

-- The buffer is empty or holds the beginning of a plain unit.
abbrev pub IsCalm : Text → Type 0
IsCalm [] = Unit
IsCalm (b ∷ _) = IsPlain b

-- No aggregate, and if a fragment then of a plain unit.
abbrev pub IsSingle : Text → Type 0
IsSingle [] = Unit
IsSingle (b ∷ []) = Unit
IsSingle (b ∷ c ∷ _) = (nalu_type b ≢ 24) × (nalu_type b ≡ 28 → IsPlain c)

-- The units of an aggregate, by their 16-bit sizes, up to the first that does not fit.
abbrev pub stap_units : ℕ → Text → List Text
stap_units zero packet = []
stap_units (suc rounds) [] = []
stap_units (suc rounds) (_ ∷ []) = []
stap_units (suc rounds) (hi ∷ lo ∷ rest) =
    if ltb (length rest) (hi * 256 + lo)
    then []
    else take (hi * 256 + lo) rest ∷ stap_units rounds (drop (hi * 256 + lo) rest)

-- A payload as RFC 6184 has it: single, or an aggregate of single units.
abbrev pub IsRegular : Text → Type 0
IsRegular [] = Unit
IsRegular (b ∷ []) = Unit
IsRegular (b ∷ c ∷ rest) =
    (nalu_type b ≡ 24 → All IsSingle (stap_units (suc (length rest)) (c ∷ rest)))
    × (nalu_type b ≡ 28 → IsPlain c)

-- The call has returned, and left a calm buffer.
abbrev Returns : Parsed → Type 0
Returns none = ⊥
Returns (some (q, _)) = IsCalm q.fbuf

plain-Returns :
    (fuel : ℕ) (p : H264Parser) (b : ℕ) (rest : Text)
    → IsPlain b
    → IsCalm p.fbuf
    → Returns (parse_frame (suc fuel) p (b ∷ rest))
unfolding parse_frame
plain-Returns fuel p b [] plain calm = calm
plain-Returns fuel p b (c ∷ rest) plain calm = ground arith

reset_after-Returns : (r : Parsed) → Returns r → Returns (reset_after r)
reset_after-Returns none h = h
reset_after-Returns (some _) h = tt

accumulate-IsCalm :
    (fbuf : Text) (b c : ℕ) (rest : Text)
    → IsPlain c
    → IsCalm fbuf
    → IsCalm (accumulate fbuf b c rest)
unfolding accumulate
accumulate-IsCalm fbuf b c rest plain calm = ground arith

fragment-Returns :
    (fuel : ℕ) (p : H264Parser) (header : ℕ) (fbuf : Text)
    → IsCalm fbuf
    → Returns (fu_done (parse_frame (suc fuel)) p header fbuf)
fragment-Returns fuel p header [] calm = tt
fragment-Returns fuel p header (d ∷ ds) calm = ground (
  arith,
  plain-Returns fuel (record p { fbuf = d ∷ ds }) d ds calm calm,
  reset_after-Returns (parse_frame (suc fuel) (record p { fbuf = d ∷ ds }) (d ∷ ds)),
)

-- A FU-A fragment of a plain unit returns in two calls.
fu_a-Returns :
    (fuel : ℕ) (p : H264Parser) (b c : ℕ) (rest : Text)
    → IsPlain c
    → IsCalm p.fbuf
    → Returns (fu_a (parse_frame (suc fuel)) p b c rest)
unfolding fu_a
fu_a-Returns fuel p b c rest plain calm =
    fragment-Returns fuel p c (accumulate p.fbuf b c rest)
      (accumulate-IsCalm p.fbuf b c rest plain calm)

single-Returns :
    (fuel : ℕ) (p : H264Parser) (packet : Text)
    → IsSingle packet
    → IsCalm p.fbuf
    → Returns (parse_frame (suc (suc fuel)) p packet)
unfolding parse_frame
single-Returns fuel p [] single calm = calm
single-Returns fuel p (b ∷ []) single calm = calm
single-Returns fuel p (b ∷ c ∷ rest) single calm = ground (arith, fu_a-Returns fuel p b c rest)

stap_next-Returns :
    (go : H264Parser → List Packet → Parsed) (r : Parsed)
    → ((q : H264Parser) (more : List Packet) → IsCalm q.fbuf → Returns (go q more))
    → Returns r
    → Returns (stap_next go r)
stap_next-Returns go none next h = h
stap_next-Returns go (some (q, ok more)) next h = next q more h
stap_next-Returns go (some (q, err e)) next h = h

stap_loop-Returns :
    (parse : H264Parser → Text → Parsed)
    → ((p : H264Parser) (packet : Text)
        → IsSingle packet
        → IsCalm p.fbuf
        → Returns (parse p packet))
    → (rounds : ℕ) (p : H264Parser) (packet : Text) (packets : List Packet)
    → All IsSingle (stap_units rounds packet)
    → IsCalm p.fbuf
    → Returns (stap_loop parse rounds p packet packets)
unfolding stap_loop
stap_loop-Returns parse each zero p packet packets single calm = calm
stap_loop-Returns parse each (suc rounds) p [] packets single calm = calm
stap_loop-Returns parse each (suc rounds) p (_ ∷ []) packets single calm = calm
stap_loop-Returns parse each (suc rounds) p (hi ∷ lo ∷ rest) packets single calm =
    elim (Bool-cases (ltb (length rest) (hi * 256 + lo))) [
      | inl short ↦ rw short calm
      | inr fits ↦
          let units : All IsSingle
              (take (hi * 256 + lo) rest ∷ stap_units rounds (drop (hi * 256 + lo) rest)) =
            rw fits at single in
          rw fits (
            stap_next-Returns _ _
              (λ q more calm'.
                stap_loop-Returns parse each rounds q (drop (hi * 256 + lo) rest) (packets ++ more)
                  units.1 calm')
              (each p (take (hi * 256 + lo) rest) units.0 calm))
    ]

regular-Returns :
    (fuel : ℕ) (p : H264Parser) (packet : Text)
    → IsRegular packet
    → IsCalm p.fbuf
    → Returns (parse_frame (suc (suc (suc fuel))) p packet)
unfolding parse_frame
regular-Returns fuel p [] regular calm = calm
regular-Returns fuel p (b ∷ []) regular calm = calm
regular-Returns fuel p (b ∷ c ∷ rest) regular calm = ground (
  arith,
  fu_a-Returns (suc fuel) p b c rest,
  stap_loop-Returns (parse_frame (suc (suc fuel))) (single-Returns fuel) (suc (length rest)) p
      (c ∷ rest) [],
)

Returns-some :
    (r : Parsed)
    → Returns r
    → (q : H264Parser) × (out : Result (List Packet)) × (r ≡ some (q, out)) × IsCalm q.fbuf
Returns-some (some (q, out)) h = (q, out, refl, h)
Returns-some none h = absurd h

-- On a regular payload, with a calm buffer, ParseFrame returns within three nested calls, with
-- packets or an error, and the buffer is calm again.
pub parse_frame-IsRegular :
    (fuel : ℕ) (p : H264Parser) (packet : Text)
    → IsRegular packet
    → IsCalm p.fbuf
    → (q : H264Parser) × (out : Result (List Packet)) × (parse_frame (3 + fuel) p packet
        ≡ some (q, out))
      × IsCalm q.fbuf
parse_frame-IsRegular fuel p packet regular calm =
    rw (add_comm 3 fuel)
      (simp towards_suc (Returns-some _ (regular-Returns fuel p packet regular calm)))

-- A buffer that is parsed as a last fragment without the start bit never comes to an end.
endless_buffer :
    (fuel : ℕ) (p : H264Parser) (b c : ℕ) (rest : Text)
    → nalu_type b ≡ 28
    → is_start c ≡ false
    → is_end c ≡ true
    → p.fbuf ≡ b ∷ c ∷ rest
    → parse_frame fuel p (b ∷ c ∷ rest) ≡ none
unfolding parse_frame fu_a accumulate
endless_buffer zero p b c rest fu start end same = refl
endless_buffer (suc fuel) p b c rest fu start end same =
    ground
      (arith, endless_buffer fuel (record p { fbuf = b ∷ c ∷ (rest ++ rest) }) b c (rest ++ rest))

-- One payload that is start and end of a fragmented FU-A unit, whose own header has the end bit
-- alone, makes ParseFrame call itself without end, whatever the parser's state.
pub parse_frame_diverges :
    (fuel : ℕ) (p : H264Parser) (b h c : ℕ) (rest : Text)
    → nalu_type b ≡ 28
    → (is_start h ≡ true) × (is_end h ≡ true) × (nalu_type h ≡ 28)
    → (is_start c ≡ false) × (is_end c ≡ true)
    → parse_frame fuel p (b ∷ h ∷ c ∷ rest) ≡ none
unfolding parse_frame fu_a accumulate
parse_frame_diverges zero p b h c rest fu header inner = refl
parse_frame_diverges (suc fuel) p b h c rest fu header inner =
    ground (
      arith,
      endless_buffer fuel (record p { fbuf = fu_octet b h ∷ c ∷ rest }) (fu_octet b h) c rest,
    )
