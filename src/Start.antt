-- ===== src/Start.antt =====
-- main.go, the checks of uiRoutes of web/ui.go, SetWebhook and httpGet of web/discord_api.go, SetOauth of web/oauth.go: from the
-- environment to a server that runs, or to the message with which the program stops. net/url's
-- Parse, the replies of other servers, the directory, the database and the sockets are answers of
-- the world.
pub mod Checks
use gunk.Base.{
  ℕ, zero, suc, ◌+◌, ◌*◌, ◌-◌, ◌^◌, ◌≡◌, Bool, true, false, not, ◌&&◌, ◌||◌, Option, none, some,
  List, [], ◌∷◌, ◌++◌, ltb, leb, ◌==◌, if◌then◌else◌, Text, codes, text_eq, is_some,
}

pub record Url : Type 0 where
  pub text : Text
  pub scheme : Text
  pub hostname : Text

-- What http.Client.Do and the reading of the body gave: the status and the body.
pub data Fetched : Type 0 where
  no_answer : Fetched
  no_body : Fetched
  answered : ℕ → Text → Fetched

-- httpGet, with the decoding of the body.
unfoldable pub http_get {ℓ} : {A : Type ℓ} → (Text → Option A) → Fetched → Option A
http_get decode no_answer = none
http_get decode no_body = none
http_get decode (answered status body) =
    let value = decode body in if status == 200 then value else none

pub record World : Type 0 where
  pub getenv : Text → Text
  pub parse_url : Text → Option Url
  pub fetch : Text → Fetched
  pub decode_guild : Text → Option Text  -- the guild_id of a webhookResponse
  pub makes_dirs : Text → Bool
  pub connects : Bool
  pub tcp : Text → Bool  -- net.Listen
  pub udp : Text → Bool  -- net.ListenPacket

pub record Hook : Type 0 where
  pub webhook_url : Text
  pub check_guild : Text

-- SetWebhook
unfoldable pub set_webhook : World → Text → Option Hook
unfolding http_get
set_webhook w u = elim (http_get w.decode_guild (w.fetch u)) [
  | none ↦ none
  | some guild ↦ some (record { webhook_url = u; check_guild = guild })
]

pub record Oauth : Type 0 where
  pub redirect_url : Text
  pub client_id : Text
  pub client_secret : Text
  pub scopes : List Text

-- SetOauth
unfoldable pub set_oauth : Text → Text → Text → Oauth
set_oauth base_url client_id client_secret = record {
  redirect_url = base_url ++ codes "/oauth2/cb";
  client_id = client_id;
  client_secret = client_secret;
  scopes = codes "identify" ∷ codes "guilds" ∷ [];
}

-- strings.TrimSuffix(s, "/")
unfoldable pub trim_slash : Text → Text
trim_slash [] = []
trim_slash (c ∷ []) = if c == b'/' then [] else c ∷ []
trim_slash (c ∷ d ∷ cs) = c ∷ trim_slash (d ∷ cs)

-- strconv.Atoi, as far as a number above zero goes: 0 for what is no number or is below zero, and
-- the greatest int for what is too large.
abbrev pub decimal : ℕ → Text → Option ℕ
decimal n [] = some n
decimal n (c ∷ cs) =
    let more = decimal (n * 10 + (c - b'0')) cs in if leb b'0' c && leb c b'9' then more else none

abbrev pub positive : Option ℕ → ℕ
positive none = 0
positive (some n) = if ltb n (2 ^ 63) then n else 2 ^ 63 - 1

unfoldable pub atoi : Text → ℕ
atoi [] = 0
atoi (c ∷ []) = positive (decimal 0 (c ∷ []))
atoi (c ∷ d ∷ cs) =
    let signed = positive (decimal 0 (d ∷ cs)) in
    let unsigned = positive (decimal 0 (c ∷ d ∷ cs)) in if c == b'+' then signed else unsigned

pub record Config : Type 0 where
  pub base_url : Text
  pub secure : Bool
  pub oauth : Oauth
  pub secret : Text
  pub hook : Hook
  pub advertise_rtmp : Text
  pub advertise_live : Url
  pub work_dir : Text
  pub bitrate : ℕ

-- The calls of log.Fatal, in their order. The last one of main is not among them: eg.Wait waits for
-- all functions of the group, and Serve of the RTSP and of the FTL server never returns, so that the
-- error of the RTMP or of the HTTP server stays unread.
pub data Fatal : Type 0 where
  base_url_is_bad : Fatal
  cookie_secret_unset : Fatal
  setting_webhook : Fatal
  live_url_is_bad : Fatal
  making_work_dir : Fatal
  connecting : Fatal
  metrics : Fatal
  rtsp : Fatal
  ftl : Fatal
  ui_unset : Fatal
  ui_is_bad : Fatal

pub data Started : Type 0 where
  runs : Config → Started
  stops : Fatal → Started

abbrev pub is_empty : Text → Bool
is_empty [] = true
is_empty (_ ∷ _) = false

-- Listen of the RTSP and the FTL server: an address that is not given is the server's own.
abbrev pub listens : World → Text → Text → Bool
listens w default_addr [] = w.tcp default_addr && w.udp default_addr
listens w default_addr (c ∷ cs) = w.tcp (c ∷ cs) && w.udp (c ∷ cs)

abbrev pub rtsp_listens : World → Text → Bool
rtsp_listens w = listens w (codes ":8554")

abbrev pub ftl_listens : World → Text → Bool
ftl_listens w = listens w (codes ":8084")

abbrev pub no_hook : Hook
no_hook = record { webhook_url = []; check_guild = [] }

abbrev pub hook_of : World → Option Hook
hook_of w =
    let v = w.getenv (codes "WEBHOOK") in if is_empty v then some no_hook else set_webhook w v

abbrev pub live_of : World → Url → Option Url
live_of w u = let v = w.getenv (codes "LIVE_URL") in if is_empty v then some u else w.parse_url v

abbrev pub rtmp_of : World → Url → Text
rtmp_of w u =
    let v = w.getenv (codes "RTMP_URL") in
    if is_empty v
    then codes "rtmp://" ++ u.hostname ++ codes "/live"
    else trim_slash v ++ codes "/live"

abbrev pub makes_work_dir : World → Bool
makes_work_dir w = let v = w.getenv (codes "WORK_DIR") in is_empty v || w.makes_dirs v

abbrev pub serves_metrics : World → Bool
serves_metrics w = let v = w.getenv (codes "METRICS") in is_empty v || w.tcp v

abbrev pub config_of : World → Text → Url → Hook → Url → Config
config_of w base u hook live = record {
  base_url = base;
  secure = text_eq u.scheme (codes "https");
  oauth = set_oauth base (w.getenv (codes "CLIENT_ID")) (w.getenv (codes "CLIENT_SECRET"));
  secret = w.getenv (codes "COOKIE_SECRET");
  hook = hook;
  advertise_rtmp = rtmp_of w u;
  advertise_live = live;
  work_dir = w.getenv (codes "WORK_DIR");
  bitrate = atoi (w.getenv (codes "OPUS_BITRATE"));
}

-- The checks of uiRoutes, which Handler calls in the goroutine of the HTTP server.
abbrev pub ui_routes : World → Config → Started
ui_routes w c =
    let bad = if is_some (w.parse_url (w.getenv (codes "UI"))) then runs c else stops ui_is_bad in
    if is_empty (w.getenv (codes "UI")) then stops ui_unset else bad

-- main from LIVE_URL on.
abbrev pub with_live : World → Config → Started
with_live w c =
    if not (makes_work_dir w)
    then stops making_work_dir
    else if not w.connects
    then stops connecting
    else if not (serves_metrics w)
    then stops metrics
    else if not (rtsp_listens w (w.getenv (codes "LISTEN_RTSP")))
    then stops rtsp
    else if not (ftl_listens w (w.getenv (codes "LISTEN_FTL")))
    then stops ftl
    else ui_routes w c

abbrev pub with_url : World → Text → Url → Hook → Option Url → Started
with_url w base u hook none = stops live_url_is_bad
with_url w base u hook (some live) = with_live w (config_of w base u hook live)

abbrev pub with_hook : World → Text → Url → Option Hook → Started
with_hook w base u none = stops setting_webhook
with_hook w base u (some hook) = with_url w base u hook (live_of w u)

abbrev pub with_base : World → Text → Option Url → Started
with_base w base none = stops base_url_is_bad
with_base w base (some u) =
    let go = with_hook w base u (hook_of w) in
    if is_empty (w.getenv (codes "COOKIE_SECRET")) then stops cookie_secret_unset else go

-- main, up to the start of the servers, with the set-up of the routes.
unfoldable pub main : World → Started
unfolding set_webhook set_oauth trim_slash atoi
main w = let base = trim_slash (w.getenv (codes "BASE_URL")) in with_base w base (w.parse_url base)
