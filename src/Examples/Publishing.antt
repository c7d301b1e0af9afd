-- ===== src/Examples/Publishing.antt =====
-- A publication, a websocket and the start of the program, at concrete inputs.
use gunk.Base.{
  ℕ, ◌≡◌, refl, Bool, true, false, ◌||◌, Option, none, some, List, [], ◌∷◌, ◌++◌, ◌==◌, is_some,
  Text, codes, if◌then◌else◌, text_eq,
}
use gunk.Base.Group.{first_of, ErrGroup}
use gunk.Ingest.Manager.{Publication, new_manager, Announcement}
use gunk.Ingest.Publish.{
  hls_publish, Event, copy_ends, hls_ends, thumb, thumbs_end, opus_ends, context_ends, wait_returns,
  start, step, run,
}
use gunk.Ingest.Publish.Ends.Result.{publish_result}
use gunk.Ingest.Publish.Ends.Announced.{shots, announced_until_end}
use gunk.Ingest.Publish.Ends.Leak.{failed_grab_leaks}
use gunk.Ingest.Copy.{write_error}
use gunk.Opus.Convert as C
use gunk.Opus.Transcode as J
use gunk.Opus.Transcode.{Setup}
use gunk.Web.Listeners.{dropped}
use gunk.Web.Session as W
use gunk.Web.Session.Closing.{session_ends}
use gunk.Start.{World, connecting, answered, set_webhook, trim_slash, main}
use gunk.Start.Checks.{fatal_of, fatal-main}

-- The first error, and whether the context is cancelled.
abbrev pairs : {E : Type 0} → ErrGroup (Option E × Bool) E
pairs = record {
  fresh = (none, false);
  finish = λ o g. (first_of g.0 o, g.1 || is_some o);
  wait = λ g. (g.0, true);
  err = λ g. g.0;
  cancelled = λ g. g.1;
  err-fresh = refl;
  cancelled-fresh = refl;
  err-finish = λ o g. refl;
  cancelled-finish = λ o g. refl;
  err-wait = λ g. refl;
  cancelled-wait = λ g. refl;
}

abbrev is_ten : ℕ → Bool
is_ten t = t == 10

-- H.264 and AAC, which is converted.
abbrev show : Bool → Publication
show grab_ok = record {
  auth = record { user_id = codes "7"; name = codes "show"; announce = true; token = none };
  streams = some (27 ∷ 10 ∷ []);
  grab_ok = grab_ok;
  q = 1;
  converted = 2;
  fresh_hls = 3;
}

-- The HLS output fails with error 5, and the others end behind it.
abbrev failing : List (Event ℕ)
failing = thumb 4000 false ∷ hls_ends (some 5) ∷ context_ends ∷ []

abbrev ending : List (Event ℕ)
ending =
    thumb 4000 false
    ∷ hls_ends (some 5)
    ∷ context_ends
    ∷ opus_ends none
    ∷ copy_ends (some 6)
    ∷ thumbs_end
    ∷ thumb 5000 false
    ∷ wait_returns 9000
    ∷ []

abbrev says : Bool → Option ℕ → Announcement
says live at = record { auth = (show true).auth; live = live; thumb = at }

announced_until_end_example :
    (ts : List ℕ) × ((run is_ten 11 pairs
        (show true)
        (start is_ten 11 pairs (show true) new_manager)
        ending).manager.announced
      ≡ says true none ∷ [] ++ shots (show true).auth ts ++ says false none ∷ [])
unfolding step start
announced_until_end_example =
    announced_until_end is_ten 11 pairs (show true) new_manager ending refl

publish_result_example :
    (run is_ten 11 pairs
      (show true)
      (start is_ten 11 pairs (show true) new_manager)
      ending).q_closed
    ≡ true
unfolding step start
publish_result_example =
    (publish_result is_ten 11 pairs (show true) new_manager ending refl (some (hls_publish 5))
      refl).2

failed_grab_leaks_example :
    (run is_ten 11 pairs
      (show false)
      (start is_ten 11 pairs (show false) new_manager)
      ending).watches
    ≡ true
failed_grab_leaks_example =
    (failed_grab_leaks is_ten 11 pairs (show false) new_manager (27 ∷ 10 ∷ []) ending refl refl).1

-- The listener is dropped, so that sendLoop ends; then the connection is closed, and the read
-- fails.
abbrev overflow : List W.Event
overflow =
    W.send_ends dropped
    ∷ W.context_ends
    ∷ W.drain_ends ((false, W.message, false) ∷ (false, W.read_fails, true) ∷ [])
    ∷ W.wait_returns
    ∷ []

session_ends_example : (W.run pairs (W.new_session pairs) overflow).logged ≡ false
unfolding W.step
session_ends_example = (session_ends pairs overflow (some W.eof) refl).3

abbrev environment : Text → Text
environment k =
    if text_eq k (codes "BASE_URL")
    then codes "https://x/"
    else if text_eq k (codes "COOKIE_SECRET")
    then codes "s"
    else []

-- All is there but the database.
abbrev world : World
world = record {
  getenv = environment;
  parse_url = λ t. some (record { text = t; scheme = codes "https"; hostname = codes "x" });
  fetch = λ t. answered 200 t;
  decode_guild = λ t. some t;
  makes_dirs = λ t. true;
  connects = false;
  tcp = λ t. true;
  udp = λ t. true;
}

fatal-main_example : fatal_of (main world) ≡ some connecting
unfolding set_webhook trim_slash
fatal-main_example = fatal-main world

abbrev well : Setup
well = record { pipes_ok = true; start_ok = true; header_ok = true }

-- The pipe cannot be read, and the muxer's write fails behind that.
abbrev broken_pipe : List J.Event
broken_pipe =
    J.encode_ends (J.encodes C.pipe_error)
    ∷ J.wait_returns true
    ∷ J.feed_ends (J.feeds write_error)
    ∷ J.wait_returns true
    ∷ []

abbrev av_streams : Option (List (C.Source ℕ))
av_streams = some (C.no_audio 7 ∷ C.aac 2 ∷ [])
