-- ===== src/Ftl/Reader/Ready.antt =====
-- Streams returns only when every deframer has codec data.
use gunk.Base.{
  ℕ, ◌≡◌, refl, ◌∙◌, Bool, true, false, Option, none, some, List, [], ◌∷◌, Bool-cases, inl, inr,
  Text, length, length-set, length-replicate, replicate, subst, get_elem?,
}
use gunk.Ftl.Deframer.{Result, ok, err, Deframer, RtpPacket}
use gunk.Ftl.Reader.{
  Input, Reader, Reads, packet, failed, waits, panics, endless, read_packet, codec_data, all_ready,
  Found, ready, gives_up, hangs, crashes, spins, note_codec, on_codec, noted, find_streams,
  streams_of,
}

module _ {ℓ} {Codec : Type ℓ} (unmarshal : Text → Option RtpPacket)
    (new_codec : Text → Text → Option Codec) (info : Codec) where
  length-note_codec :
      (i : ℕ) (cd : Option Codec) (streams : List (Option Codec))
      → length (note_codec unmarshal new_codec info i cd streams) ≡ length streams
  length-note_codec i none streams = refl
  length-note_codec i (some cd) streams = length-set streams i (some cd)

  -- The list is complete, of the length that was asked for, and kept by the reader.
  abbrev pub IsComplete : ℕ → Found unmarshal new_codec info → Type ℓ
  IsComplete n (ready q rest cs) =
      (all_ready unmarshal new_codec info cs ≡ true) × (q.streams ≡ some cs) × (length cs ≡ n)
  IsComplete n (gives_up _ _ _) = Unit
  IsComplete n (hangs _) = Unit
  IsComplete n crashes = Unit
  IsComplete n spins = Unit

  module _ (n : ℕ) (q : Reader Codec) (rest : List Input) (i : ℕ) (streams : List (Option Codec))
      (go : List (Option Codec) → Found unmarshal new_codec info) (len : length streams ≡ n)
      (next : (known : List (Option Codec)) → length known ≡ n → IsComplete n (go known)) where
    on_codec-IsComplete :
        (r : Result (Option Codec))
        → IsComplete n (on_codec unmarshal new_codec info q rest i streams go r)
    on_codec-IsComplete (err e) = tt
    on_codec-IsComplete (ok cd) =
        let known = note_codec unmarshal new_codec info i cd streams in
        let same = length-note_codec i cd streams ∙ len in
        elim (Bool-cases (all_ready unmarshal new_codec info known)) [
          | inl all ↦ rw (all, on_codec) (all, refl, same)
          | inr more ↦ rw (more, on_codec) (next known same)
        ]

    noted-IsComplete :
        (f : Option Deframer) → IsComplete n (noted unmarshal new_codec info q rest i streams go f)
    noted-IsComplete none = tt
    noted-IsComplete (some f) = on_codec-IsComplete (codec_data unmarshal new_codec info f.parser)

  find_streams-IsComplete :
      (fuel n : ℕ) (rounds : List Bool) (r : Reader Codec) (inputs : List Input)
      (streams : List (Option Codec))
      → length streams ≡ n
      → IsComplete n (find_streams unmarshal new_codec info fuel rounds r inputs streams)
  unfolding find_streams
  find_streams-IsComplete fuel n [] r inputs streams len = tt
  find_streams-IsComplete fuel n (true ∷ _) r inputs streams len = tt
  find_streams-IsComplete fuel n (false ∷ rounds) r inputs streams len =
      after (λ q rest known same. find_streams-IsComplete fuel n rounds q rest known same)
        (read_packet unmarshal fuel r inputs) refl
    where
      after :
          ((q : Reader Codec) (rest : List Input) (known : List (Option Codec))
            → length known ≡ n
            → IsComplete n (find_streams unmarshal new_codec info fuel rounds q rest known))
          → (x : Reads Codec) → read_packet unmarshal fuel r inputs ≡ x
          → IsComplete n
              (find_streams unmarshal new_codec info fuel (false ∷ rounds) r inputs streams)
      after ih (packet p q rest) e =
          rw (e, find_streams)
            (noted-IsComplete n q rest p.idx streams _ len (ih q rest)
              (get_elem? q.deframers p.idx))
      after ih (failed _ _ _) e = rw (e, find_streams) tt
      after ih (waits _) e = rw (e, find_streams) tt
      after ih panics e = rw (e, find_streams) tt
      after ih endless e = rw (e, find_streams) tt

  -- When Streams returns for the first time, there is codec data for each of the deframers, and the
  -- reader keeps the list for the calls that follow.
  pub streams_of_complete :
      (fuel : ℕ) (rounds : List Bool) (r q : Reader Codec) (inputs rest : List Input)
      (cs : List (Option Codec))
      → r.streams ≡ none
      → streams_of unmarshal new_codec info fuel rounds r inputs ≡ ready q rest cs
      → (all_ready unmarshal new_codec info cs ≡ true)
        × (q.streams ≡ some cs)
        × (length cs ≡ length r.deframers)
  unfolding streams_of
  streams_of_complete fuel rounds r q inputs rest cs fresh h =
      let start = replicate (length r.deframers) none in
      subst (IsComplete (length r.deframers)) (rw (fresh, streams_of) at h) (
        find_streams-IsComplete fuel (length r.deframers) rounds r inputs start
          (length-replicate (length r.deframers) none))
