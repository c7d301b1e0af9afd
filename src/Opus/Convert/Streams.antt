-- ===== src/Opus/Convert/Streams.antt =====
-- The header that dest is given, and where the source's packets go.
use gunk.Base.{
  ℕ, suc, ◌+◌, ◌≡◌, refl, ap, ◌∙◌, inl, inr, Bool, true, false, Option, none, some, List, [], ◌∷◌,
  ◌++◌, map, ◌==◌, if◌then◌else◌, length, Bool-cases, arith,
}
use gunk.Ingest.Copy.{Read, packet, eof, failed, finished, read_error}
use gunk.Opus.Convert.{
  Source, aac, other_audio, no_audio, Output, copied, opus, missing, Audio, with_output, select,
  set_output, with_audio, header, remux,
}

module _ {ℓ} {A : Type ℓ} where
  -- The packets of the audio stream, or of the others.
  abbrev pub on_audio : ℕ → Bool → List (ℕ × A) → List (ℕ × A)
  on_audio aidx b [] = []
  on_audio aidx b (p ∷ ps) =
      let more = on_audio aidx b ps in
      if p.0 == aidx then (if b then p ∷ more else more) else if b then more else p ∷ more

  abbrev pub incoming : List (ℕ × A) → List (Bool × Read (ℕ × A) × Bool)
  incoming [] = []
  incoming (p ∷ ps) = (false, packet p, true) ∷ incoming ps

  -- Of the packets that a source gives before its end or an error, those of the audio stream go to
  -- ffmpeg and the others to dest, each in order and none to both; ffmpeg's input is then closed,
  -- and the outcome tells the end from the error.
  pub remux-splits :
      (aidx : ℕ) (ps : List (ℕ × A)) (write_ok : Bool) (rest : List (Bool × Read (ℕ × A) × Bool))
      → (remux aidx (incoming ps ++ (false, eof, write_ok) ∷ rest) ≡ record {
        to_ffmpeg = on_audio aidx true ps;
        to_dest = on_audio aidx false ps;
        outcome = finished;
        closed = true;
      })
        × (remux aidx (incoming ps ++ (false, failed, write_ok) ∷ rest) ≡ record {
          to_ffmpeg = on_audio aidx true ps;
          to_dest = on_audio aidx false ps;
          outcome = read_error;
          closed = true;
        })
  unfolding remux
  remux-splits aidx [] write_ok rest = (refl, refl)
  remux-splits aidx (p ∷ ps) write_ok rest =
      let (end, error) = remux-splits aidx ps write_ok rest in
      elim (Bool-cases (p.0 == aidx)) [
        | inl audio ↦ rw (audio, end, error) (refl, refl)
        | inr video ↦ rw (video, end, error) (refl, refl)
      ]

plus_zero : (i : ℕ) → i ≡ i + 0
plus_zero i = omega arith

zero_plus : (i : ℕ) → 0 + i ≡ i
zero_plus i = omega arith

plus_suc : (i n : ℕ) → suc i + n ≡ i + suc n
plus_suc i n = omega arith

module _ {ℓ} {Codec : Type ℓ} where
  select-no_audio :
      (cs : List Codec) (i : ℕ) (audio : Option Audio)
      → select i audio (map no_audio cs) ≡ some (audio, map copied cs)
  unfolding select
  select-no_audio [] i audio = refl
  select-no_audio (c ∷ cs) i audio = ap (with_output (copied c)) (select-no_audio cs (suc i) audio)

  select-behind :
      (cs : List Codec) (i : ℕ) (audio found : Option Audio) (rest : List (Source Codec))
      (outputs : List (Output Codec))
      → select (i + length cs) audio rest ≡ some (found, outputs)
      → select i audio (map no_audio cs ++ rest) ≡ some (found, map copied cs ++ outputs)
  unfolding select
  select-behind [] i audio found rest outputs h = ap (λ n. select n audio rest) (plus_zero i) ∙ h
  select-behind (c ∷ cs) i audio found rest outputs h = ap (with_output (copied c)) (
      select-behind cs (suc i) audio found rest outputs
        (ap (λ n. select n audio rest) (plus_suc i (length cs)) ∙ h))

  set_output-behind :
      (cs : List Codec) (o p : Output Codec) (outputs : List (Output Codec))
      → set_output (length cs) o (map copied cs ++ p ∷ outputs) ≡ map copied cs ++ o ∷ outputs
  unfolding set_output
  set_output-behind [] o p outputs = refl
  set_output-behind (c ∷ cs) o p outputs = ap (λ l. copied c ∷ l) (set_output-behind cs o p outputs)

  select-unsupported :
      (before after : List (Source Codec)) (i : ℕ) (audio : Option Audio)
      → select i audio (before ++ other_audio ∷ after) ≡ none
  unfolding select
  select-unsupported [] after i audio = refl
  select-unsupported (aac n ∷ before) after i audio =
      ap (with_output missing) (select-unsupported before after (suc i) _)
  select-unsupported (other_audio ∷ before) after i audio = refl
  select-unsupported (no_audio c ∷ before) after i audio =
      ap (with_output (copied c)) (select-unsupported before after (suc i) audio)

  -- A source with one audio stream, which is AAC, is given a header in which an Opus stream of as
  -- many channels stands in its place and every other stream is as it was; a source with other
  -- audio anywhere, or with no audio, is refused.
  pub header_exact :
      (before after : List Codec) (channels : ℕ) (front back : List (Source Codec))
      → (header (map no_audio before ++ aac channels ∷ map no_audio after)
          ≡ some (
            record { idx = length before; channels = channels },
            map copied before ++ opus channels ∷ map copied after,
          ))
        × (header (front ++ other_audio ∷ back) ≡ none)
        × (header (map no_audio before) ≡ none)
  unfolding header select
  header_exact before after channels front back =
      let a : Audio = record { idx = length before; channels = channels } in
      (
        ap with_audio (
              select-behind before 0 none (some a) (aac channels ∷ map no_audio after)
                (missing ∷ map copied after)
                (ap (λ n. select n none (aac channels ∷ map no_audio after))
                    (zero_plus (length before))
                  ∙ ap (with_output missing)
                      (select-no_audio after (suc (length before)) (some a))))
            ∙ ap (λ l. some (a, l))
                (set_output-behind before (opus channels) missing (map copied after)),
        ap with_audio (select-unsupported front back 0 none),
        ap with_audio (select-no_audio before 0 none),
      )
