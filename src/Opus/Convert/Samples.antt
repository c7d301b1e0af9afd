-- ===== src/Opus/Convert/Samples.antt =====
-- The sound that dest is given, against what ffmpeg gives, and where the source's packets go.
use gunk.Base.{
  ℕ, ◌+◌, ◌*◌, ◌/◌, ◌%◌, ◌^◌, ◌<◌, ◌≡◌, refl, sym, ap, ◌∙◌, Bool, true, false, Option, none, some,
  List, [], ◌∷◌, ◌++◌, leb, Text, length, take, drop, All, Option-cases, inl, inr, arith,
  length-append, take-append_length, drop-append_length,
}
use gunk.Opus.Convert.{
  samples_per_packet, packet_length, samples, OpusPacket, encoded_all, encode_ends, sent,
  encode_loop,
}

-- Samples of 16 bits as bytes, the low one first.
abbrev pub s16le : List ℕ → Text
s16le [] = []
s16le (x ∷ xs) = x % 256 ∷ x / 256 ∷ s16le xs

abbrev pub pcm : List (List ℕ) → Text → Text
pcm [] tail = tail
pcm (f ∷ frames) tail = s16le f ++ pcm frames tail

samples-s16le : (xs : List ℕ) → samples (s16le xs) ≡ xs
unfolding samples
samples-s16le [] = refl
samples-s16le (x ∷ xs) =
    let ih = samples-s16le xs in
    let whole : x % 256 + x / 256 * 256 ≡ x = omega arith in rw (whole, ih) refl

length-s16le : (xs : List ℕ) → length (s16le xs) ≡ length xs * 2
length-s16le [] = refl
length-s16le (x ∷ xs) = let ih = length-s16le xs in ground (arith, ih)

-- Each packet is 20 ms behind the one before.
abbrev pub timed : ℕ → ℕ → List Text → List OpusPacket
timed aidx ts [] = []
timed aidx ts (body ∷ bodies) =
    record { idx = aidx; body = body; time = ts }
    ∷ timed aidx ((ts + packet_length) % 2 ^ 64) bodies

module _ {ℓ} {Encoder : Type ℓ} (encode : Encoder → List ℕ → Option (Text × Encoder)) where
  -- What the encoder makes of one frame after the other.
  abbrev pub encode_all : Encoder → List (List ℕ) → Option (List Text)
  encode_all e [] = some []
  encode_all e (f ∷ frames) = elim (encode e f) [
    | none ↦ none
    | some (body, next) ↦ elim (encode_all next frames) [
      | none ↦ none
      | some bodies ↦ some (body ∷ bodies)
    ]
  ]

  encode_all-cons :
      (e : Encoder) (f : List ℕ) (frames : List (List ℕ)) (bodies : List Text)
      → encode_all e (f ∷ frames) ≡ some bodies
      → (body : Text) × (next : Encoder) × (more : List Text) × (encode e f ≡ some (body, next))
        × (encode_all next frames ≡ some more)
        × (bodies ≡ body ∷ more)
  encode_all-cons e f frames bodies h = elim (Option-cases (encode e f)) [
    | inl fails ↦ absurd (ground (arith, h, fails))
    | inr ((body, next), is) ↦ elim (Option-cases (encode_all next frames)) [
      | inl fails ↦ absurd (ground (arith, h, is, fails))
      | inr (more, rest) ↦ (body, next, more, is, rest, ground (arith, h, is, rest))
    ]
  ]

  encode_loop-frame :
      (aidx channels : ℕ) (e next : Encoder) (ts : ℕ) (f : List ℕ) (rest body : Text)
      (rounds : List (Bool × Bool × Bool))
      → length f ≡ samples_per_packet * channels
      → encode e f ≡ some (body, next)
      → encode_loop encode aidx channels e ts (s16le f ++ rest) ((false, true, true) ∷ rounds)
        ≡ sent
            (record { idx = aidx; body = body; time = ts })
            (encode_loop encode aidx channels next ((ts + packet_length) % 2 ^ 64) rest rounds)
  unfolding encode_loop
  encode_loop-frame aidx channels e next ts f rest body rounds full encoded =
      let size : length (s16le f) ≡ samples_per_packet * channels * 2 =
        length-s16le f ∙ ap (λ n. n * 2) full in
      let fits : leb (samples_per_packet * channels * 2) (length (s16le f ++ rest)) ≡ true =
        let l = length-append (s16le f) rest in ground (arith, l, size) in
      let front : samples (take (samples_per_packet * channels * 2) (s16le f ++ rest)) ≡ f =
        ap (λ n. samples (take n (s16le f ++ rest))) (sym size)
        ∙ ap samples (take-append_length (s16le f) rest)
        ∙ samples-s16le f in
      let back : drop (samples_per_packet * channels * 2) (s16le f ++ rest) ≡ rest =
        ap (λ n. drop n (s16le f ++ rest)) (sym size) ∙ drop-append_length (s16le f) rest in
      rw (fits, front, encoded, back) refl

  encode_loop-tail :
      (aidx channels : ℕ) (e : Encoder) (ts : ℕ) (tail : Text) (rounds : List (Bool × Bool × Bool))
      → length tail < samples_per_packet * channels * 2
      → All (λ r. r ≡ (false, true, true)) rounds
      → 0 < length rounds
      → encode_loop encode aidx channels e ts tail rounds ≡ encode_ends encoded_all
  unfolding encode_loop
  encode_loop-tail aidx channels e ts tail [] short all some_left = absurd (omega arith)
  encode_loop-tail aidx channels e ts tail (r ∷ rounds) short (here, all) some_left =
      let short : leb (samples_per_packet * channels * 2) (length tail) ≡ false =
        ground (arith, short) in
      rw (here, short) refl

  -- When ffmpeg has given some whole frames, of 960 samples of 16 bits for each channel, and a tail
  -- that is shorter than a frame, each frame is encoded in order and sent as one packet on the
  -- audio stream, 20 ms behind the one before, and the tail is dropped, if the encoder takes the
  -- frames and nothing else stops the loop before it comes to the end.
  pub encode_loop-pcm :
      (aidx channels : ℕ) (frames : List (List ℕ)) (tail : Text) (e : Encoder) (ts : ℕ)
      (bodies : List Text) (rounds : List (Bool × Bool × Bool))
      → All (λ f. length f ≡ samples_per_packet * channels) frames
      → length tail < samples_per_packet * channels * 2
      → encode_all e frames ≡ some bodies
      → All (λ r. r ≡ (false, true, true)) rounds
      → length frames < length rounds
      → encode_loop encode aidx channels e ts (pcm frames tail) rounds
        ≡ record { packets = timed aidx ts bodies; outcome = encoded_all }
  encode_loop-pcm aidx channels [] tail e ts bodies rounds full short is fine enough =
      let none_left : bodies ≡ [] = ground (arith, is) in
      rw none_left (encode_loop-tail aidx channels e ts tail rounds short fine enough)
  encode_loop-pcm aidx channels (f ∷ frames) tail e ts bodies [] full short is fine enough =
      absurd (omega arith)
  encode_loop-pcm aidx channels (f ∷ frames) tail e ts bodies (r ∷ rounds) (here, full) short is
        (ok, fine) enough =
      let (body, next, more, encoded, rest, all) = encode_all-cons e f frames bodies is in
      rw
        (
          ok,
          all,
          encode_loop-frame aidx channels e next ts f (pcm frames tail) body rounds here encoded,
        )
        (ap (sent (record { idx = aidx; body = body; time = ts })) (
          encode_loop-pcm aidx channels frames tail next ((ts + packet_length) % 2 ^ 64) more rounds
            full short rest fine (omega arith)))
