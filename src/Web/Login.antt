-- ===== src/Web/Login.antt =====
-- web/oauth.go, discord_api.go and server.go: logging in through Discord, and who a request is
-- from. What Discord and the database answer stands in the arguments.
pub mod Flow
use gunk.Base.{
  ℕ, ◌*◌, Bool, true, false, not, ◌&&◌, ◌||◌, Option, none, some, List, [], ◌∷◌, ◌++◌, map,
  if◌then◌else◌, Text, codes, text_eq,
}
use gunk.Base.Int.{ℤ, pos, negsuc}
use gunk.Base.Dict.{Dict}
use gunk.Web.Cookies.{
  Crypto, Json, Cookie, state_cookie, login_cookie, clear_cookie, set_cookie, Unsealed, unsealed,
  rejected, panics, unseal,
}

abbrev pub state_cookie_expires : ℤ
state_cookie_expires = pos (15 * 60)

abbrev pub login_cookie_expires : ℤ
login_cookie_expires = pos (30 * 24 * 60 * 60)

pub record DiscordUser : Type 0 where
  pub id : Text
  pub username : Text
  pub discriminator : Text
  pub avatar : Text

abbrev pub no_user : DiscordUser
no_user = record { id = []; username = []; discriminator = []; avatar = [] }

-- What the server is set up with.
pub record Site : Type 0 where
  pub crypto : Crypto
  pub is_secure : Bool
  pub client_id : Text
  pub check_guild : Text
  pub user_json : Json DiscordUser
  pub state_json : Json Text

-- An answer: an error with its status, a redirect to Discord with a state, a redirect to /, or a
-- body; or the handler panics.
pub data Reply {ℓ} (A : Type ℓ) : Type ℓ where
  error : ℕ → Reply A
  to_discord : Text → Reply A
  to_home : Reply A
  json : A → Reply A
  crashed : Reply A

-- An answer with the cookies that it sets, in order.
pub record Answer {ℓ} (A : Type ℓ) : Type ℓ where
  pub reply : Reply A
  pub cookies : List Cookie

abbrev pub only {ℓ} : {A : Type ℓ} → Reply A → Answer A
only r = record { reply = r; cookies = [] }

abbrev pub listed : Option Cookie → List Cookie
listed none = []
listed (some c) = c ∷ []

-- viewOauthLogin, with the 9 bytes and the nonce that are drawn. The error of setCookie is not
-- looked at.
unfoldable pub view_oauth_login : Site → Text → Text → Answer DiscordUser
unfolding set_cookie
view_oauth_login s sb nonce =
    let state = s.crypto.encode sb in
    let cookie =
      set_cookie s.crypto s.is_secure s.state_json nonce state_cookie state state_cookie_expires in
    if text_eq s.client_id []
    then only (error 400)
    else record { reply = to_discord state; cookies = listed cookie }

-- What an exchange comes to: a token, an error, or a panic.
pub data Exchanged {ℓ} (Token : Type ℓ) : Type ℓ where
  got : Token → Exchanged Token
  refused : Exchanged Token
  crashes : Exchanged Token

-- The code that Discord is asked to exchange, if it is, and the cookies that are set.
pub record Exchange {ℓ} (Token : Type ℓ) : Type ℓ where
  pub result : Exchanged Token
  pub asked : Option Text
  pub cookies : List Cookie

-- The query and the cookies of a request to the callback.
pub record CallbackRequest : Type 0 where
  pub code : Text
  pub state : Text
  pub cookies : Dict Text

-- What Discord answers for a token: what httpGet leaves in the user and whether it succeeds, the
-- guilds, the token after its possible refresh; and whether the database stores it.
pub record Discord {ℓ} (Token : Type ℓ) : Type ℓ where
  pub user : DiscordUser
  pub user_ok : Bool
  pub guilds : Option (List Text)
  pub new_token : Option Token
  pub stored_ok : Bool

-- The named results of lookupUser, and the call of model.SetUser.
pub record Looked {ℓ} (Token : Type ℓ) : Type ℓ where
  pub user : DiscordUser
  pub ok : Bool
  pub set_user : Option (Text × Token × Bool)

abbrev pub is_member : Text → List Text → Bool
is_member g [] = false
is_member g (h ∷ guilds) = text_eq h g || is_member g guilds

abbrev pub persist : List Cookie → Option Cookie → Answer DiscordUser
persist cookies none = record { reply = error 500; cookies = cookies }
persist cookies (some c) = record { reply = to_home; cookies = cookies ++ c ∷ [] }

module _ {ℓ} {Token : Type ℓ} where
  abbrev pub asked_for : Text → List Cookie → Option Token → Exchange Token
  asked_for code cookies none = record { result = refused; asked = some code; cookies = cookies }
  asked_for code cookies (some t) = record { result = got t; asked = some code; cookies = cookies }

  abbrev pub with_state :
      Site → CallbackRequest → (Text → Option Token) → Unsealed Text → Exchange Token
  with_state s r exchange panics = record { result = crashes; asked = none; cookies = [] }
  with_state s r exchange rejected = record {
    result = refused;
    asked = none;
    cookies = clear_cookie s.crypto s.is_secure state_cookie (negsuc 0) ∷ [];
  }
  with_state s r exchange (unsealed state2) =
      let cleared = clear_cookie s.crypto s.is_secure state_cookie (negsuc 0) ∷ [] in
      if text_eq state2 r.state
      then asked_for r.code cleared (exchange r.code)
      else record { result = refused; asked = none; cookies = cleared }

  -- tokenExchange
  unfoldable pub token_exchange : Site → CallbackRequest → (Text → Option Token) → Exchange Token
  unfolding clear_cookie unseal
  token_exchange s r exchange =
      if text_eq r.code []
      then record { result = refused; asked = none; cookies = [] }
      else with_state s r exchange (unseal s.crypto s.is_secure s.state_json r.cookies state_cookie)

  abbrev pub fails_with : DiscordUser → Looked Token
  fails_with user = record { user = user; ok = false; set_user = none }

  abbrev pub with_guilds : Site → Discord Token → Option (List Text) → Option Token → Looked Token
  with_guilds s d none t = fails_with d.user
  with_guilds s d (some guilds) none = fails_with d.user
  with_guilds s d (some guilds) (some t) = record {
    user = d.user;
    ok = d.stored_ok;
    set_user = some (d.user.id, t, is_member s.check_guild guilds);
  }

  -- lookupUser
  unfoldable pub lookup_user : Site → Discord Token → Looked Token
  lookup_user s d = if d.user_ok then with_guilds s d d.guilds d.new_token else fails_with d.user

  abbrev pub with_user : Site → Text → List Cookie → Looked Token → Answer DiscordUser
  with_user s nonce cookies l =
      let login =
        set_cookie s.crypto s.is_secure s.user_json nonce login_cookie l.user
          login_cookie_expires in
      if l.ok then persist cookies login else record { reply = error 400; cookies = cookies }

  abbrev pub with_token :
      Site → Text → (Token → Discord Token) → List Cookie → Exchanged Token → Answer DiscordUser
  with_token s nonce discord cookies refused = record { reply = error 400; cookies = cookies }
  with_token s nonce discord cookies crashes = record { reply = crashed; cookies = [] }
  with_token s nonce discord cookies (got t) = with_user s nonce cookies (lookup_user s (discord t))

  -- viewOauthCB, with the nonce that is drawn.
  unfoldable pub view_oauth_cb :
      Site
      → Text
      → (Text → Option Token)
      → (Token → Discord Token)
      → CallbackRequest
      → Answer DiscordUser
  unfolding token_exchange lookup_user set_cookie
  view_oauth_cb s nonce exchange discord r =
      let ex = token_exchange s r exchange in
      if text_eq s.client_id []
      then only (error 400)
      else with_token s nonce discord ex.cookies ex.result

-- The avatar of a user as the path of a picture.
abbrev pub with_avatar : DiscordUser → DiscordUser
with_avatar u =
    let path = codes "/avatars/" ++ u.id ++ codes "/" ++ u.avatar ++ codes ".png" in
    if text_eq u.avatar [] then u else record u { avatar = path }

abbrev pub shown : Unsealed DiscordUser → Reply DiscordUser
shown (unsealed u) = json (with_avatar u)
shown rejected = json no_user
shown panics = crashed

-- viewUser
unfoldable pub view_user : Site → Dict Text → Answer DiscordUser
unfolding unseal
view_user s cookies = only (shown (unseal s.crypto s.is_secure s.user_json cookies login_cookie))

-- viewOauthLogout
unfoldable pub view_oauth_logout : Site → Answer (Unit {0})
unfolding clear_cookie
view_oauth_logout s = record {
  reply = json tt;
  cookies = clear_cookie s.crypto s.is_secure login_cookie (negsuc 0) ∷ [];
}

-- checkAuth of server.go: who a request is from. The answer 401 is given to others.
pub data Checked : Type 0 where
  user : Text → Checked
  unauthorized : Checked
  aborted : Checked

abbrev pub auth_of : Unsealed DiscordUser → Checked
auth_of (unsealed u) = user u.id
auth_of rejected = unauthorized
auth_of panics = aborted

unfoldable pub check_auth : Site → Dict Text → Checked
unfolding unseal
check_auth s cookies = auth_of (unseal s.crypto s.is_secure s.user_json cookies login_cookie)
