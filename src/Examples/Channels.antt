-- ===== src/Examples/Channels.antt =====
-- Channels and what is played of them, at concrete inputs.
use gunk.Base.{ℕ, ◌≡◌, Bool, true, none, some, List, [], ◌∷◌, ◌==◌, codes, is_some}
use gunk.Ingest.Channel.{new_channel, is_live, Event, sets, stops, looks, joins, leaves, run}
use gunk.Ingest.Channel.Consistent.{run_consistent}
use gunk.Ingest.Manager.{Publication, new_manager, serve_ts}
use gunk.Ingest.Manager.Schedule as S
use gunk.Ingest.Manager.Playing.{served_on_air}

abbrev busy : List Event
busy =
    sets 1 1 2 7
    ∷ joins
    ∷ joins
    ∷ looks (codes "10.0.0.9") 4000
    ∷ sets 3 3 4 8
    ∷ stops 1 5000
    ∷ leaves
    ∷ []

run_consistent_example :
    is_live (some (run new_channel busy)) ≡ is_some (run new_channel busy).ingest
run_consistent_example = (run_consistent busy).0

abbrev publish : ℕ → Publication
publish q = record {
  auth = record { user_id = codes "7"; name = codes "show"; announce = true; token = none };
  streams = some (27 ∷ 10 ∷ []);
  grab_ok = true;
  q = q;
  converted = 100;
  fresh_hls = 7;
}

abbrev is_ten : ℕ → Bool
is_ten t = t == 10

abbrev schedule : List S.Event
schedule = S.begins (publish 1) ∷ S.begins (publish 2) ∷ S.ends (publish 1) 900 ∷ S.cleans 1000 ∷ []

served_on_air_example : serve_ts (S.run is_ten 11 new_manager schedule) (codes "show") ≡ some 2
served_on_air_example = (served_on_air is_ten 11 schedule (codes "show")).0
