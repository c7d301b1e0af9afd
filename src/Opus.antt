-- ===== src/Opus.antt =====
-- transcode/opus/opus.go: the duration of an Opus packet, from its table of contents byte.
-- Durations are in nanoseconds. The child is the conversion of a stream's audio.
pub mod Convert
pub mod Transcode
use gunk.Base.{
  ℕ, zero, suc, ap, ◌⊎◌, inl, inr, Option-cases, ◌+◌, ◌*◌, ◌/◌, ◌%◌, ◌^◌, ◌≤◌, ◌<◌, ◌≡◌, refl, Bool,
  true, false, Option, none, some, List, [], ◌∷◌, arith, ltb, ◌==◌, if◌then◌else◌, length,
  get_elem?,
}

abbrev pub microsecond : ℕ
microsecond = 1000

abbrev pub millisecond : ℕ
millisecond = 1000000

-- opusFrameTimes
unfoldable pub opus_frame_times : List ℕ
opus_frame_times =
    10 * millisecond
    ∷ 20 * millisecond
    ∷ 40 * millisecond
    ∷ 60 * millisecond
    ∷ 10 * millisecond
    ∷ 20 * millisecond
    ∷ 40 * millisecond
    ∷ 60 * millisecond
    ∷ 10 * millisecond
    ∷ 20 * millisecond
    ∷ 40 * millisecond
    ∷ 60 * millisecond
    ∷ 10 * millisecond
    ∷ 20 * millisecond
    ∷ 10 * millisecond
    ∷ 20 * millisecond
    ∷ 2500 * microsecond
    ∷ 5 * millisecond
    ∷ 10 * millisecond
    ∷ 20 * millisecond
    ∷ 2500 * microsecond
    ∷ 5 * millisecond
    ∷ 10 * millisecond
    ∷ 20 * millisecond
    ∷ 2500 * microsecond
    ∷ 5 * millisecond
    ∷ 10 * millisecond
    ∷ 20 * millisecond
    ∷ 2500 * microsecond
    ∷ 5 * millisecond
    ∷ 10 * millisecond
    ∷ 20 * millisecond
    ∷ []

pub data Duration : Type 0 where
  lasts : ℕ → Duration
  empty_packet : Duration
  invalid_packet : Duration
  panics : Duration

-- The number of frames, or none for an invalid packet.
abbrev pub num_frames : ℕ → List ℕ → Option ℕ
num_frames toc rest =
    let code = toc % 4 in
    if code == 0
    then some (if ltb 1 (suc (length rest)) then 1 else 0)
    else if code == 3
    then (elim rest [ [] ↦ none | n ∷ _ ↦ some (n % 64) ])
    else some (if ltb 2 (suc (length rest)) then 2 else 0)

-- An index out of range panics.
abbrev pub frames_at : Option ℕ → Option ℕ → Duration
frames_at none time = invalid_packet
frames_at (some n) none = panics
frames_at (some n) (some time) = lasts (n * time)

-- PacketDuration
unfoldable pub packet_duration : List ℕ → Duration
unfolding opus_frame_times
packet_duration [] = empty_packet
packet_duration (toc ∷ rest) =
    frames_at (num_frames toc rest) (get_elem? opus_frame_times (toc / 8))

-- RFC 6716, table 2: the duration of a frame, by the mode of a configuration: SILK up to 11, hybrid
-- up to 15 and CELT.
abbrev pub frame_time : ℕ → ℕ
frame_time config =
    if ltb config 12
    then (if config % 4 == 3 then 60 * millisecond else 10 * millisecond * 2 ^ (config % 4))
    else if ltb config 16
    then 10 * millisecond * 2 ^ (config % 2)
    else 2500 * microsecond * 2 ^ (config % 4)

-- Whether a table has the durations of the configurations from one on.
abbrev table_matches : ℕ → List ℕ → Bool
table_matches i [] = true
table_matches i (t ∷ ts) =
    let rest = table_matches (suc i) ts in if t == frame_time i then rest else false

get_elem?-matches :
    (i c j : ℕ) (ts : List ℕ)
    → j ≡ i + c
    → table_matches i ts ≡ true
    → c < length ts
    → get_elem? ts c ≡ some (frame_time j)
get_elem?-matches i c j [] at h lt = ground arith
get_elem?-matches i zero j (t ∷ ts) at h lt = ground (arith, ap frame_time at)
get_elem?-matches i (suc c) j (t ∷ ts) at h lt =
    get_elem?-matches (suc i) c j ts (omega arith) (ground arith) (omega arith)

opus_frame_times_lem : (c : ℕ) → c < 32 → get_elem? opus_frame_times c ≡ some (frame_time c)
unfolding opus_frame_times
opus_frame_times_lem c lt = get_elem?-matches 0 c c opus_frame_times (omega arith) refl lt

two_pow_le : (k : ℕ) → (k ≤ 1 → 2 ^ k ≤ 2) × (k ≤ 2 → 2 ^ k ≤ 4) × (k ≤ 3 → 2 ^ k ≤ 8)
two_pow_le zero = ground arith
two_pow_le (suc zero) = ground arith
two_pow_le (suc (suc zero)) = ground arith
two_pow_le (suc (suc (suc zero))) = ground arith
two_pow_le (suc (suc (suc (suc k)))) = ground arith

frame_time_le : (c : ℕ) → frame_time c ≤ 60 * millisecond
frame_time_le c = ground (arith, two_pow_le (c % 4), two_pow_le (c % 2))

mul_bound : {a b c d : ℕ} → a ≤ c → b ≤ d → a * b ≤ c * d
mul_bound le le' = grind arith

num_frames_le : (toc n : ℕ) (rest : List ℕ) → num_frames toc rest ≡ some n → n ≤ 63
num_frames_le toc n rest h = ground arith

num_frames-none :
    (toc : ℕ) (rest : List ℕ) → num_frames toc rest ≡ none → (toc % 4 ≡ 3) × (rest ≡ [])
num_frames-none toc rest h = ground arith

-- A packet of bytes that is not empty never makes PacketDuration panic. It is refused exactly if it
-- has code 3 and no frame count; otherwise the duration is the number of frames times the duration
-- of a frame of its configuration in RFC 6716, which is at most 63 times 60 ms.
pub packet_duration_exact :
    (toc : ℕ) (rest : List ℕ)
    → toc < 256
    → ((packet_duration (toc ∷ rest) ≡ invalid_packet) × (toc % 4 ≡ 3) × (rest ≡ []))
      ⊎ ((n : ℕ) × (num_frames toc rest ≡ some n)
          × (packet_duration (toc ∷ rest) ≡ lasts (n * frame_time (toc / 8)))
          × (n * frame_time (toc / 8) ≤ 63 * (60 * millisecond)))
unfolding packet_duration
packet_duration_exact toc rest byte =
    let table = opus_frame_times_lem (toc / 8) (omega arith) in
    elim (Option-cases (num_frames toc rest)) [
      | inl bad ↦ inl (ground (arith, bad, num_frames-none toc rest bad))
      | inr (n, good) ↦ inr (
        n,
        good,
        ground (arith, good, table),
        mul_bound (num_frames_le toc n rest good) (frame_time_le (toc / 8)),
      )
    ]
