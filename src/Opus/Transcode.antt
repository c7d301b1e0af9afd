-- ===== src/Opus/Transcode.antt =====
-- transcode/opus/opus.go: one call of Convert, with ffmpeg and the group of its two loops. What a pipe, the start of
-- ffmpeg, the writing of a header and ffmpeg's exit give are arguments; how each loop ends is what
-- Convert makes of it.
pub mod Errors
pub mod Joined
use gunk.Base.{
  ◌≡◌, Bool, true, false, not, ◌&&◌, ◌||◌, Option, none, some, List, [], ◌∷◌, if◌then◌else◌,
  is_some,
}
use gunk.Base.Group.{ErrGroup, steps}
use gunk.Ingest.Copy
use gunk.Ingest.Copy.{Outcome, running, finished, read_error, write_error}
use gunk.Opus.Convert.{
  Source, header, EncodeOutcome, encoding, encoded_all, pipe_error, encode_error, dest_error,
}

pub data Failure : Type 0 where
  selecting : Failure
  piping : Failure
  starting : Failure
  writing_header : Failure
  feeding : Failure
  encoding_fails : Failure
  exiting : Failure

-- How the first goroutine ends: the muxer's header cannot be written, or the loop's outcome.
pub data FeedEnd : Type 0 where
  no_mux : FeedEnd
  feeds : Outcome → FeedEnd

-- How the second ends: there is no encoder, or the loop's outcome.
pub data EncodeEnd : Type 0 where
  no_encoder : EncodeEnd
  encodes : EncodeOutcome → EncodeEnd

-- What they return; `none` while they go on.
abbrev pub feed_result : FeedEnd → Option (Option Failure)
feed_result no_mux = some (some feeding)
feed_result (feeds running) = none
feed_result (feeds finished) = some none
feed_result (feeds read_error) = some (some feeding)
feed_result (feeds write_error) = some (some feeding)

abbrev pub encode_result : EncodeEnd → Option (Option Failure)
encode_result no_encoder = some (some encoding_fails)
encode_result (encodes encoding) = none
encode_result (encodes encoded_all) = some none
encode_result (encodes pipe_error) = some (some encoding_fails)
encode_result (encodes encode_error) = some (some encoding_fails)
encode_result (encodes dest_error) = some (some encoding_fails)

-- Which goroutines run, whether ffmpeg's input is closed, and what has been done to ffmpeg.
pub record Job (G : Type 0) : Type 0 where
  pub group : G
  pub feeding_runs : Bool
  pub encoding_runs : Bool
  pub input_closed : Bool
  pub started : Bool
  pub killed : Bool
  pub waited : Bool
  pub outcome : Option (Option Failure)

-- What the start finds outside.
pub record Setup : Type 0 where
  pub pipes_ok : Bool
  pub start_ok : Bool
  pub header_ok : Bool

pub data Event : Type 0 where
  feed_ends : FeedEnd → Event
  encode_ends : EncodeEnd → Event
  wait_returns : Bool → Event

module _ {G : Type 0} (eg : ErrGroup G Failure) where
  -- An early return, with the deferred calls: the pipes are closed, and the context is cancelled, which kills ffmpeg
  -- if it has been started.
  abbrev pub refused : Bool → Failure → Job G
  refused started f = record {
    group = eg.fresh;
    feeding_runs = false;
    encoding_runs = false;
    input_closed = true;
    started = started;
    killed = started;
    waited = false;
    outcome = some (some f);
  }

  abbrev pub joined : Job G
  joined = record {
    group = eg.fresh;
    feeding_runs = true;
    encoding_runs = true;
    input_closed = false;
    started = true;
    killed = false;
    waited = false;
    outcome = none;
  }

  -- The streams that src.Streams gives, or its error.
  abbrev pub has_header {ℓ} : {Codec : Type ℓ} → Option (List (Source Codec)) → Bool
  has_header none = false
  has_header (some streams) = is_some (header streams)

  -- Convert up to eg.Wait.
  unfoldable pub begin_convert {ℓ} : {Codec : Type ℓ} → Option (List (Source Codec)) → Setup → Job G
  unfolding header
  begin_convert streams s =
      if not (has_header streams)
      then refused false selecting
      else if not s.pipes_ok
      then refused false piping
      else if not s.start_ok
      then refused false starting
      else if not s.header_ok
      then refused true writing_header
      else joined

  abbrev pub fed : Option (Option Failure) → Job G → Job G
  fed none j = j
  fed (some o) j = record j {
    group = eg.finish o j.group;
    feeding_runs = false;
    input_closed = true;
  }

  abbrev pub encoded : Option (Option Failure) → Job G → Job G
  encoded none j = j
  encoded (some o) j = record j { group = eg.finish o j.group; encoding_runs = false }

  -- Behind eg.Wait: on an error ffmpeg is killed, and it is waited for in any case.
  abbrev pub exited : Option Failure → Bool → Job G → Job G
  exited (some f) exit_ok j = record j {
    group = eg.wait j.group;
    killed = true;
    waited = true;
    outcome = some (some f);
  }
  exited none exit_ok j = record j {
    group = eg.wait j.group;
    waited = true;
    outcome = some (if exit_ok then none else some exiting);
  }

  abbrev pub can_return : Job G → Bool
  can_return j = not (j.feeding_runs || (j.encoding_runs || is_some j.outcome))

  unfoldable pub step : Job G → Event → Job G
  step j (feed_ends e) = let next = fed (feed_result e) j in if j.feeding_runs then next else j
  step j (encode_ends e) =
      let next = encoded (encode_result e) j in if j.encoding_runs then next else j
  step j (wait_returns exit_ok) =
      let next = exited (eg.err j.group) exit_ok j in if can_return j then next else j
