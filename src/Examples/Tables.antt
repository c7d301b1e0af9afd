-- ===== src/Examples/Tables.antt =====
-- The database, the pages and the files of the HTTP server, at concrete inputs.
use gunk.Base.{
  ℕ, ◌≡◌, ◌≢◌, ◌↔◌, refl, true, false, Option, none, some, List, [], ◌∷◌, is_some, Text, codes,
  arith,
}
use gunk.Base.Dict.{get}
use gunk.Model
use gunk.Model.{ChannelAuth, Token, by_name, path_base, token_ok, verify_ftl, verify_rtmp}
use gunk.Ingest.Rtmp.{handle_publish}
use gunk.Ingest.Manager.{new_manager, serve_ts}
use gunk.Ingest.Manager.Schedule as S
use gunk.Ingest.Manager.Schedule.{on_air_after}
use gunk.Web.Cookies.{unseal}
use gunk.Web.Login.{lookup_user, check_auth}
use gunk.Web.Defs.{Row, fine, creates, deletes, parsed, Request, handle}
use gunk.Database.{User, find_user, find_row, query_channel}
use gunk.Database.Provision.{asks, create-publish, delete-refuses}
use gunk.Database.Announcing.{store_user, query_channel-store_user}
use gunk.Database.Thumbs.{Listed}
use gunk.Web.Pages.{view_play, ends_as}
use gunk.Web.Pages.OnAir.{pages_on_air}
use gunk.Base.Dict.{Dict}
use gunk.Web.Files.{ui, ui_answer, middleware, cache_immutable, cache_control, kept_for_long}
use gunk.Web.Files.Immutable.{Matches, cached_iff}
use gunk.Examples.Web.{site, urls, table, addresses, is_ten, events, discord}

abbrev users : List User
users = record { user_id = codes "7"; refresh_token = none; announce = true } ∷ []

abbrev parse_token : Text → Option (Option Token)
parse_token t = some (some (record { refresh_token = t }))

abbrev digest : Text → Text → Text
digest key nonce = key

abbrev number : Row → Text
number r = r.name

-- User 7 asks for a channel.
abbrev creation : Request
creation = record {
  cookies = (codes "__Host-login", codes "abcdefghijklmnopqrstuvwx7") ∷ [];
  call = creates fine (codes "k3") (parsed (codes "new"));
}

not_empty : codes "7" ≢ []
not_empty e = ground (arith, e)

create-publish_example :
    (auth : ChannelAuth) × (verify_ftl
        (asks parse_token digest number users (handle site urls creation table).table)
        parse_token
        digest
        (codes "new")
        (codes "n")
        (codes "k3")
      ≡ (auth, none))
    × (auth.user_id ≡ codes "7")
    × (auth.name ≡ codes "new")
unfolding check_auth unseal get find_row find_user path_base
create-publish_example =
    (create-publish parse_token digest number site urls creation users table (codes "7")
      (codes "new") (codes "k3") (codes "/live/new") (codes "n") refl not_empty refl refl refl refl
      refl).2

-- User 7 deletes a channel.
abbrev removal : Request
removal = record {
  cookies = (codes "__Host-login", codes "abcdefghijklmnopqrstuvwx7") ∷ [];
  call = deletes fine (codes "show");
}

delete-refuses_example :
    (handle_publish
      (verify_rtmp
        (asks parse_token digest number users (handle site urls removal table).table)
        parse_token
        digest)
      (codes "/live/show")
      (codes "k")).published
    ≡ none
unfolding check_auth unseal get path_base
delete-refuses_example =
    (delete-refuses parse_token digest number site urls removal users table (codes "7")
      (codes "show") (codes "/live/show") (codes "k") refl not_empty refl (refl, (refl, tt)) refl).1

abbrev digit : ℕ → Option Text
digit t = some (t ∷ [])

query_channel-store_user_example :
    query_channel number
      (store_user digit fine (lookup_user site (discord 5)).set_user users).1
      table
      by_name
      (codes "show")
    ≡ Model.row (record {
      user_id = codes "7";
      name = codes "show";
      key = codes "k";
      blob = some (5 ∷ []);
      announce = true;
    })
unfolding find_row
query_channel-store_user_example =
    query_channel-store_user digit site (discord 5) (codes "9" ∷ []) 5 (5 ∷ []) number users table
      by_name (codes "show")
      (record { user_id = codes "7"; name = codes "show"; key = codes "k"; announce = true }) refl
      refl refl refl refl

abbrev listing : List Listed
listing = record { name = codes "show"; last = 4 } ∷ record { name = codes "other"; last = 2 } ∷ []

pages_on_air_example :
    (view_play (ends_as (serve_ts (S.run is_ten 11 new_manager events) (codes "show")) true)
      ≡ some 404)
    ↔ (is_some (on_air_after is_ten 11 (codes "show") none events) ≡ false)
pages_on_air_example = (pages_on_air is_ten 11 events addresses listing (codes "show") true).3

-- A hashed file of the web client, and the headers that it gets.
abbrev app_js : Text
app_js = codes "/js/app.0123abcd.js"

abbrev app_js_headers : Dict Text
app_js_headers = cache_immutable app_js (middleware [])

cached_iff_example :
    (get cache_control app_js_headers ≡ some kept_for_long)
    ↔ ((ui app_js ≡ ui app_js) × Matches app_js)
unfolding ui_answer middleware cache_immutable
cached_iff_example = (cached_iff (λ p. p) app_js (ui app_js, app_js_headers) refl).0
