-- ===== src/Examples/Web.antt =====
-- The cookies, the logins, the channels and the websockets of the HTTP server, at concrete inputs.
use gunk.Base.{
  ℕ, ◌≡◌, ◌≢◌, refl, sym, ap, Bool, true, Option, none, some, List, [], ◌∷◌, Text, codes, ◌==◌,
  arith,
}
use gunk.Base.Int.{pos, negsuc}
use gunk.Base.Dict.{Dict, get}
use gunk.Model.{ChannelAuth}
use gunk.Web.Cookies.{Crypto, Json, Cookie, state_cookie, clear_cookie, set_cookie, unseal}
use gunk.Web.Cookies.Sealed.{IsSealing, IsJson}
use gunk.Web.Login.{
  DiscordUser, no_user, Site, to_home, view_oauth_login, CallbackRequest, Discord, lookup_user,
  token_exchange, view_oauth_cb, user, check_auth,
}
use gunk.Web.Login.Flow.{IsOwn, IsLogin, view_oauth_cb-IsOwn, login-check_auth}
use gunk.Web.Defs.{Row, fine, Urls, rows_of, deletes, Request, run}
use gunk.Web.Defs.Owner.{run-keeps_rows}
use gunk.Ingest.Manager.{new_manager, Publication}
use gunk.Ingest.Manager.Schedule as S
use gunk.Web.News.{Addresses}
use gunk.Web.News.Announced.{webhooks, broadcasts, begun, changes, run-news}

-- A box that is its message, and no encoding.
abbrev plain : Crypto
plain = record {
  seal = λ nonce m. m;
  open_box = λ nonce box. some box;
  encode = λ b. b;
  decode = λ b. some b;
}

plain-IsSealing : IsSealing plain
plain-IsSealing = record {
  decodes = λ b. refl;
  opens = λ nonce m. refl;
  authentic = λ nonce box m e. ground (arith, e);
  not_empty = λ b lt. lt;
}

abbrev text_json : Json Text
text_json = record { marshal = λ t. some t; unmarshal = λ t. some t }

abbrev with_id : Option Text → Option DiscordUser
with_id none = none
with_id (some t) = some (record no_user { id = t })

abbrev pub user_json : Json DiscordUser
user_json = record { marshal = λ u. some u.id; unmarshal = λ t. with_id (some t) }

abbrev pub site : Site
site = record {
  crypto = plain;
  is_secure = true;
  client_id = codes "gunk";
  check_guild = codes "9";
  user_json = user_json;
  state_json = text_json;
}

abbrev nonce : Text
nonce = codes "abcdefghijklmnopqrstuvwx"

abbrev jar : Dict Text
jar = (codes "__Host-ostate", codes "abcdefghijklmnopqrstuvwx42") ∷ []

abbrev pub bob : DiscordUser
bob = record no_user { id = codes "7" }

abbrev pub discord : ℕ → Discord ℕ
discord t = record {
  user = bob;
  user_ok = true;
  guilds = some (codes "9" ∷ []);
  new_token = some t;
  stored_ok = true;
}

abbrev exchange : Text → Option ℕ
exchange code = some 5

abbrev back : CallbackRequest
back = record { code = codes "c"; state = codes "42"; cookies = jar }

view_oauth_cb-IsOwn_example :
    (t : ℕ) × IsOwn site back exchange t
    × IsLogin site nonce discord t (view_oauth_cb site nonce exchange discord back)
unfolding view_oauth_cb token_exchange lookup_user set_cookie unseal get
view_oauth_cb-IsOwn_example = view_oauth_cb-IsOwn site nonce exchange discord back refl

abbrev given : Cookie
given = record {
  name = codes "__Host-ostate";
  value = codes "abcdefghijklmnopqrstuvwx42";
  max_age = pos 900;
  is_secure = true;
  http_only = true;
}

text-IsJson : IsJson text_json (codes "42")
unfolding IsJson
text-IsJson = λ blob h. sym h

bob-IsJson : IsJson user_json (lookup_user site (discord 5)).user
unfolding IsJson lookup_user
bob-IsJson = λ blob h. ap with_id (sym h)

login-check_auth_example :
    (login : Cookie) × (view_oauth_cb site nonce exchange discord back ≡ record {
      reply = to_home;
      cookies = clear_cookie plain true state_cookie (negsuc 0) ∷ login ∷ [];
    })
    × (check_auth site ((login.name, login.value) ∷ jar)
        ≡ user (lookup_user site (discord 5)).user.id)
unfolding view_oauth_login lookup_user set_cookie get
login-check_auth_example =
    login-check_auth site (codes "42") nonce nonce (codes "42") (codes "7") given exchange discord
      back 5 jar plain-IsSealing text-IsJson bob-IsJson refl refl refl refl refl
      (λ e. ground (arith, e)) refl refl refl

abbrev pub urls : Urls
urls = record { advertise_rtmp = codes "rtmp://x/"; path_escape = λ t. t; query_escape = λ t. t }

abbrev pub row : Text → Text → Row
row user_id name = record { user_id = user_id; name = name; key = codes "k"; announce = true }

abbrev pub table : List Row
table = row (codes "7") (codes "show") ∷ row (codes "8") (codes "show2") ∷ []

-- A request of user 7 that would delete the channel of user 8.
abbrev deletion : Request
deletion = record {
  cookies = (codes "__Host-login", codes "abcdefghijklmnopqrstuvwx7") ∷ [];
  call = deletes fine (codes "show2");
}

not_from_8 : check_auth site deletion.cookies ≢ user (codes "8")
unfolding check_auth unseal get
not_from_8 e = ground (arith, e)

run-keeps_rows_example :
    rows_of (codes "8") (run site urls (deletion ∷ deletion ∷ []) table) ≡ rows_of (codes "8") table
run-keeps_rows_example =
    run-keeps_rows site urls (codes "8") (deletion ∷ deletion ∷ []) table
      (not_from_8, (not_from_8, tt))

abbrev auth : ChannelAuth
auth = record {
  user_id = codes "7";
  name = codes "show";
  announce = true;
  token = some (record { refresh_token = codes "r" });
}

abbrev pub publication : Publication
publication = record {
  auth = auth;
  streams = some (1 ∷ 10 ∷ []);
  grab_ok = true;
  q = 1;
  converted = 2;
  fresh_hls = 3;
}

abbrev pub addresses : Addresses
addresses = record {
  thumb_url = λ name t. name;
  channel_url = λ name. name;
  resolve = none;
  path_escape = λ t. t;
  base_url = codes "https://x";
  webhook_url = codes "https://hook";
  zero_millis = negsuc 6795364578871;
}

abbrev pub events : List S.Event
events = S.begins publication ∷ S.thumbs publication 5000000 true ∷ S.ends publication 9000000 ∷ []

abbrev pub is_ten : ℕ → Bool
is_ten t = t == 10

run-news_example :
    (webhooks addresses (S.run is_ten 11 new_manager events).announced ≡ begun is_ten 11 events)
    × (broadcasts addresses (S.run is_ten 11 new_manager events).announced
        ≡ changes is_ten 11 addresses events)
run-news_example = run-news is_ten 11 addresses events
