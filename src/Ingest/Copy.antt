-- ===== src/Ingest/Copy.antt =====
-- ingest/publish.go and play.go: the loops that copy packets from a source to a queue or a muxer.
-- What ReadPacket returns, one call after the other, is a list; so is whether each write succeeds.
use gunk.Base.{◌≡◌, refl, Bool, true, false, List, [], ◌∷◌, ◌++◌, if◌then◌else◌, arith}

pub data Read {ℓ} (A : Type ℓ) : Type ℓ where
  packet : A → Read A
  eof : Read A
  failed : Read A

pub data Outcome : Type 0 where
  running : Outcome
  finished : Outcome
  read_error : Outcome
  write_error : Outcome

-- What a loop has written, and how it ended. `closed` is the deferred dest.Close().
pub record Copied {ℓ} (A : Type ℓ) : Type ℓ where
  pub written : List A
  pub outcome : Outcome
  pub closed : Bool

module _ {ℓ} {A : Type ℓ} where
  abbrev pub ended : Outcome → Copied A
  ended o = record { written = []; outcome = o; closed = true }

  abbrev pub wrote : A → Copied A → Copied A
  wrote a c = record c { written = a ∷ c.written }

  -- copyStream of publish.go. Each packet comes with whether its write succeeds.
  unfoldable pub copy_stream : List (Read A × Bool) → Copied A
  copy_stream [] = record { written = []; outcome = running; closed = false }
  copy_stream ((eof, _) ∷ _) = ended finished
  copy_stream ((failed, _) ∷ _) = ended read_error
  copy_stream ((packet a, write_ok) ∷ rest) =
      let more = wrote a (copy_stream rest) in if write_ok then more else ended write_error

  -- copyStream of play.go: the context is looked at before and after each read.
  unfoldable pub copy_until : List (Bool × Read A × Bool × Bool) → Copied A
  copy_until [] = record { written = []; outcome = running; closed = false }
  copy_until ((true, _, _, _) ∷ _) = record { written = []; outcome = finished; closed = false }
  copy_until ((false, _, true, _) ∷ _) = record { written = []; outcome = finished; closed = false }
  copy_until ((false, eof, false, _) ∷ _) = record {
    written = [];
    outcome = finished;
    closed = false;
  }
  copy_until ((false, failed, false, _) ∷ _) = record {
    written = [];
    outcome = read_error;
    closed = false;
  }
  copy_until ((false, packet a, false, write_ok) ∷ rest) =
      let more = wrote a (copy_until rest) in
      if write_ok then more else record { written = []; outcome = write_error; closed = false }

  -- Packets that are all read and written.
  abbrev pub flowing : List A → List (Read A × Bool)
  flowing [] = []
  flowing (a ∷ ps) = (packet a, true) ∷ flowing ps

  -- A source of some packets and then an end or an error is copied whole and in order, whatever
  -- comes behind; the destination is closed and the outcome tells the end from the error.
  pub copy_stream-flowing :
      (ps : List A) (write_ok : Bool) (rest : List (Read A × Bool))
      → (copy_stream (flowing ps ++ (eof, write_ok) ∷ rest)
          ≡ record { written = ps; outcome = finished; closed = true })
        × (copy_stream (flowing ps ++ (failed, write_ok) ∷ rest)
            ≡ record { written = ps; outcome = read_error; closed = true })
        × ((a : A)
            → copy_stream (flowing ps ++ (packet a, false) ∷ rest)
              ≡ record { written = ps; outcome = write_error; closed = true })
  unfolding copy_stream
  copy_stream-flowing [] write_ok rest = (refl, refl, λ a. refl)
  copy_stream-flowing (b ∷ ps) write_ok rest =
      let (end, error, refused) = copy_stream-flowing ps write_ok rest in
      (ground (arith, end), ground (arith, error), λ a. ground (arith, refused a))
