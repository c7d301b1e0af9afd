-- ===== src/Opus/Transcode/Joined.antt =====
-- How a conversion ends.
use gunk.Base.{◌≡◌, ◌⊎◌, Bool, true, false, ◌&&◌, ◌||◌, Option, none, some, List}
use gunk.Base.Group.{ErrGroup}
use gunk.Opus.Convert.{Source}
use gunk.Opus.Transcode.{Failure, exiting, Job, Setup, has_header}

module _ {G : Type 0} (eg : ErrGroup G Failure) where
  -- What is done to ffmpeg behind the group's error, and what Convert returns then.
  pub Exit : Option Failure → Job G → Type 0
  Exit (some f) j = (j.outcome ≡ some (some f)) × (j.killed ≡ true)
  Exit none j = (j.killed ≡ false) × ((j.outcome ≡ some none) ⊎ (j.outcome ≡ some (some exiting)))

  record Holds (j : Job G) : Type 0 where
    closes : (j.feeding_runs || j.input_closed) ≡ true
    ends :
        (j.outcome ≡ none) × (j.killed ≡ false)
        ⊎ ((j.feeding_runs || j.encoding_runs) ≡ false)
          × (j.waited ≡ true)
          × Exit (eg.err j.group) j

  module _ {ℓ} {Codec : Type ℓ} (streams : Option (List (Source Codec))) (s : Setup) where
    -- Whether everything is there when the loops are started.
    abbrev pub can_join : Bool
    can_join = has_header eg streams && (s.pipes_ok && (s.start_ok && s.header_ok))
