-- ===== src/Web/Cookies.antt =====
-- web/secrets.go: cookies that only the server can read and make. secretbox under the server's key,
-- base64 and json are parameters.
pub mod Sealed
use gunk.Base.{
  ℕ, suc, Bool, true, false, Option, none, some, List, [], ◌∷◌, ◌++◌, ltb, if◌then◌else◌, Text,
  codes, text_eq, length, take, drop,
}
use gunk.Base.Int.{ℤ, pos, negsuc}
use gunk.Base.Dict.{Dict, get}

-- secretbox.Seal and Open on a nonce, and base64.RawURLEncoding.
pub record Crypto : Type 0 where
  pub seal : Text → Text → Text
  pub open_box : Text → Text → Option Text
  pub encode : Text → Text
  pub decode : Text → Option Text

-- json.Marshal and json.Unmarshal for a type.
pub record Json {ℓ} (A : Type ℓ) : Type ℓ where
  pub marshal : A → Option Text
  pub unmarshal : Text → Option A

abbrev pub state_cookie : Text
state_cookie = codes "ostate"

abbrev pub login_cookie : Text
login_cookie = codes "login"

-- http.Cookie, less its constant path.
pub record Cookie : Type 0 where
  pub name : Text
  pub value : Text
  pub max_age : ℤ
  pub is_secure : Bool
  pub http_only : Bool

abbrev pub cookie_name : Bool → Text → Text
cookie_name is_secure name = if is_secure then codes "__Host-" ++ name else name

abbrev pub cookie_of : Bool → Text → Text → ℤ → Cookie
cookie_of is_secure name value max_age = record {
  name = cookie_name is_secure name;
  value = value;
  max_age = max_age;
  is_secure = is_secure;
  http_only = true;
}

module _ (crypto : Crypto) (is_secure : Bool) where
  -- setCookie with the value nil, which deletes the cookie.
  unfoldable pub clear_cookie : Text → ℤ → Cookie
  clear_cookie name max_age = cookie_of is_secure name [] max_age

  -- setCookie with a value, and the nonce that is drawn.
  unfoldable pub set_cookie {ℓ} : {A : Type ℓ} → Json A → Text → Text → A → ℤ → Option Cookie
  set_cookie json nonce name value max_age = elim (json.marshal value) [
    | none ↦ none
    | some blob ↦
        some (cookie_of is_secure name (crypto.encode (nonce ++ crypto.seal nonce blob)) max_age)
  ]

pub data Unsealed {ℓ} (A : Type ℓ) : Type ℓ where
  unsealed : A → Unsealed A
  rejected : Unsealed A
  panics : Unsealed A

module _ {ℓ} {A : Type ℓ} where
  abbrev pub of_option : Option A → Unsealed A
  of_option none = rejected
  of_option (some a) = unsealed a

  abbrev pub parse_blob : Json A → Option Text → Unsealed A
  parse_blob json none = rejected
  parse_blob json (some blob) = of_option (json.unmarshal blob)

  -- `sealed[24:]` panics on fewer bytes.
  abbrev pub open_sealed : Crypto → Json A → Option Text → Unsealed A
  open_sealed crypto json none = rejected
  open_sealed crypto json (some sealed) =
      if ltb (length sealed) 24
      then panics
      else parse_blob json (crypto.open_box (take 24 sealed) (drop 24 sealed))

  abbrev pub open_cookie : Crypto → Json A → Option Text → Unsealed A
  open_cookie crypto json none = rejected
  open_cookie crypto json (some []) = rejected
  open_cookie crypto json (some (b ∷ bs)) = open_sealed crypto json (crypto.decode (b ∷ bs))

  -- unseal, on the cookies of the request.
  unfoldable pub unseal : Crypto → Bool → Json A → Dict Text → Text → Unsealed A
  unfolding get
  unseal crypto is_secure json cookies name =
      open_cookie crypto json (get (cookie_name is_secure name) cookies)
