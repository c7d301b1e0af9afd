-- ===== src/Opus/Convert.antt =====
-- transcode/opus/opus.go: Convert, which sends the AAC audio of a stream through ffmpeg and
-- libopus. Its choice of streams, the loop that feeds ffmpeg, and the loop that encodes the samples
-- ffmpeg gives. The encoder is a function on its own state; the checks of the context, and whether
-- each write succeeds, are lists.
pub mod Streams
pub mod Samples
use gunk.Base.{
  ℕ, zero, suc, ◌+◌, ◌*◌, ◌/◌, ◌%◌, ◌^◌, Bool, true, false, Option, none, some, List, [], ◌∷◌, leb,
  ◌==◌, if◌then◌else◌, Text, length, take, drop,
}
use gunk.Opus.{millisecond}
use gunk.Ingest.Copy.{
  Read, packet, eof, failed, Outcome, running, finished, read_error, write_error,
}

-- A stream of the source: AAC with so many channels, other audio, or no audio, with its codec data.
pub data Source {ℓ} (Codec : Type ℓ) : Type ℓ where
  aac : ℕ → Source Codec
  other_audio : Source Codec
  no_audio : Codec → Source Codec

-- An entry of newStreams.
pub data Output {ℓ} (Codec : Type ℓ) : Type ℓ where
  copied : Codec → Output Codec
  opus : ℕ → Output Codec
  missing : Output Codec

-- aidx, and the channels of asrcCodec.
pub record Audio : Type 0 where
  pub idx : ℕ
  pub channels : ℕ

module _ {ℓ} {Codec : Type ℓ} where
  abbrev pub with_output :
      Output Codec
      → Option (Option Audio × List (Output Codec))
      → Option (Option Audio × List (Output Codec))
  with_output o none = none
  with_output o (some (audio, outputs)) = some (audio, o ∷ outputs)

  -- The loop over the streams; `none` for unsupported audio.
  unfoldable pub select :
      ℕ → Option Audio → List (Source Codec) → Option (Option Audio × List (Output Codec))
  select i audio [] = some (audio, [])
  select i audio (aac channels ∷ streams) =
      with_output missing (select (suc i) (some (record { idx = i; channels = channels })) streams)
  select i audio (other_audio ∷ streams) = none
  select i audio (no_audio c ∷ streams) = with_output (copied c) (select (suc i) audio streams)

  -- newStreams[aidx] = …
  unfoldable pub set_output : ℕ → Output Codec → List (Output Codec) → List (Output Codec)
  set_output i o [] = []
  set_output zero o (_ ∷ outputs) = o ∷ outputs
  set_output (suc i) o (p ∷ outputs) = p ∷ set_output i o outputs

  abbrev pub with_audio :
      Option (Option Audio × List (Output Codec)) → Option (Audio × List (Output Codec))
  with_audio none = none
  with_audio (some (none, outputs)) = none
  with_audio (some (some audio, outputs)) =
      some (audio, set_output audio.idx (opus audio.channels) outputs)

  -- The audio stream and the header written to dest, or an error.
  unfoldable pub header : List (Source Codec) → Option (Audio × List (Output Codec))
  unfolding select set_output
  header streams = with_audio (select 0 none streams)

-- What has gone to ffmpeg and to dest, how the loop ended, and whether ffmpeg's input is closed.
pub record Remuxed {ℓ} (A : Type ℓ) : Type ℓ where
  pub to_ffmpeg : List (ℕ × A)
  pub to_dest : List (ℕ × A)
  pub outcome : Outcome
  pub closed : Bool

module _ {ℓ} {A : Type ℓ} where
  abbrev pub remux_ends : Outcome → Remuxed A
  remux_ends o = record { to_ffmpeg = []; to_dest = []; outcome = o; closed = true }

  abbrev pub to_one : Bool → ℕ × A → Remuxed A → Remuxed A
  to_one true p rest = record rest { to_ffmpeg = p ∷ rest.to_ffmpeg }
  to_one false p rest = record rest { to_dest = p ∷ rest.to_dest }

  -- The first goroutine, behind the header. Each round has whether the context is done, what is
  -- read, and whether the write succeeds.
  unfoldable pub remux : ℕ → List (Bool × Read (ℕ × A) × Bool) → Remuxed A
  remux aidx [] = record { to_ffmpeg = []; to_dest = []; outcome = running; closed = false }
  remux aidx ((true, _, _) ∷ _) = remux_ends finished
  remux aidx ((false, eof, _) ∷ _) = remux_ends finished
  remux aidx ((false, failed, _) ∷ _) = remux_ends read_error
  remux aidx ((false, packet p, write_ok) ∷ rest) =
      let more = to_one (p.0 == aidx) p (remux aidx rest) in
      if write_ok then more else remux_ends write_error

abbrev pub sample_rate : ℕ
sample_rate = 48000

abbrev pub packet_length : ℕ
packet_length = 20 * millisecond

abbrev pub samples_per_packet : ℕ
samples_per_packet = sample_rate * packet_length / (1000 * millisecond)

-- int16(sbuf[2*i]) | int16(sbuf[2*i+1])<<8, as a 16-bit pattern; the two have no bit in common.
unfoldable pub samples : Text → List ℕ
samples [] = []
samples (_ ∷ []) = []
samples (low ∷ high ∷ rest) = (low + high * 256) ∷ samples rest

pub record OpusPacket : Type 0 where
  pub idx : ℕ
  pub body : Text
  pub time : ℕ

pub data EncodeOutcome : Type 0 where
  encoding : EncodeOutcome
  encoded_all : EncodeOutcome
  pipe_error : EncodeOutcome
  encode_error : EncodeOutcome
  dest_error : EncodeOutcome

pub record Encoded : Type 0 where
  pub packets : List OpusPacket
  pub outcome : EncodeOutcome

abbrev pub encode_ends : EncodeOutcome → Encoded
encode_ends o = record { packets = []; outcome = o }

abbrev pub sent : OpusPacket → Encoded → Encoded
sent p rest = record rest { packets = p ∷ rest.packets }

module _ {ℓ} {Encoder : Type ℓ} (encode : Encoder → List ℕ → Option (Text × Encoder)) where
  -- The second goroutine, on the bytes of ffmpeg's output: a read short of a frame ends it. Each
  -- round has whether the context is done, whether the pipe can be read, up to its end, and whether
  -- the write succeeds.
  unfoldable pub encode_loop : ℕ → ℕ → Encoder → ℕ → Text → List (Bool × Bool × Bool) → Encoded
  unfolding samples
  encode_loop aidx channels e ts bytes [] = encode_ends encoding
  encode_loop aidx channels e ts bytes ((true, _, _) ∷ _) = encode_ends encoded_all
  encode_loop aidx channels e ts bytes ((false, false, _) ∷ _) = encode_ends pipe_error
  encode_loop aidx channels e ts bytes ((false, true, write_ok) ∷ rounds) =
      let size = samples_per_packet * channels * 2 in
      if leb size (length bytes)
      then elim (encode e (samples (take size bytes))) [
        | none ↦ encode_ends encode_error
        | some (body, next) ↦
            let more =
              encode_loop aidx channels next ((ts + packet_length) % 2 ^ 64) (drop size bytes)
                rounds in
            if write_ok
            then sent (record { idx = aidx; body = body; time = ts }) more
            else encode_ends dest_error
      ]
      else encode_ends encoded_all
