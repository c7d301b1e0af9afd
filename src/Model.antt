-- ===== src/Model.antt =====
-- model/channel_auth.go: who may publish to a channel. The database row, the JSON decoder of the
-- stored token and HMAC-SHA-512 are parameters; hmac.Equal is equality of bytes.
use mathlib.Core.List.{reverse}
use gunk.Base.{
  ◌≡◌, refl, Bool, true, false, Option, none, some, [], ◌∷◌, arith, if◌then◌else◌, Text, codes,
  text_eq, is_some, text_eq_iff, ◌↔◌, ◌⊎◌, inl, inr, ◌==◌, ◌≢◌,
}

-- oauth2.Token, as far as the program reads it.
pub record Token : Type 0 where
  pub refresh_token : Text

pub record ChannelAuth : Type 0 where
  pub user_id : Text
  pub name : Text
  pub announce : Bool
  pub token : Option Token

-- The zero value.
abbrev pub no_auth : ChannelAuth
no_auth = record { user_id = []; name = []; announce = false; token = none }

pub data Error : Type 0 where
  user_not_found : Error
  database : Error
  bad_token : Error
  no_such_row : Error

-- What QueryRow(...).Scan gives for a channel.
pub record Row : Type 0 where
  pub user_id : Text
  pub name : Text
  pub key : Text
  pub blob : Option Text
  pub announce : Bool

pub data Scan : Type 0 where
  row : Row → Scan
  no_rows : Scan
  failed : Scan

-- The two columns that the program looks a channel up by.
pub data Column : Type 0 where
  by_name by_ftl_id : Column

-- path.Base: the last element of a slash-separated path, read from its end.
abbrev drop_slashes : Text → Text
drop_slashes [] = []
drop_slashes (c ∷ cs) = let rest = drop_slashes cs in if c == b'/' then rest else c ∷ cs

abbrev until_slash : Text → Text
until_slash [] = []
until_slash (c ∷ cs) = let rest = until_slash cs in if c == b'/' then [] else c ∷ rest

abbrev base_or_root : Text → Text
base_or_root [] = codes "/"
base_or_root (c ∷ cs) = reverse (c ∷ cs)

unfoldable pub path_base : Text → Text
path_base [] = codes "."
path_base (c ∷ cs) = base_or_root (until_slash (drop_slashes (reverse (c ∷ cs))))

-- The named results of a lookup: what is returned beside an error is what was assigned so far.
pub record Found : Type 0 where
  pub auth : ChannelAuth
  pub key : Text
  pub error : Option Error

module _ (query : Column → Text → Scan) (unmarshal_token : Text → Option (Option Token))
    (hmac_sha512 : Text → Text → Text) where
  abbrev pub auth_of : Row → ChannelAuth
  auth_of r = record { user_id = r.user_id; name = r.name; announce = r.announce; token = none }

  -- The token of a row: no blob and an empty one give a nil token.
  abbrev pub with_token : ChannelAuth → Text → Option Text → Found
  with_token auth key none = record { auth = auth; key = key; error = none }
  with_token auth key (some []) = record { auth = auth; key = key; error = none }
  with_token auth key (some (b ∷ bs)) = elim (unmarshal_token (b ∷ bs)) [
    | none ↦ record { auth = auth; key = key; error = some bad_token }
    | some t ↦ record { auth = record auth { token = t }; key = key; error = none }
  ]

  abbrev pub scanned : Scan → Found
  scanned no_rows = record { auth = no_auth; key = []; error = some no_such_row }
  scanned failed = record { auth = no_auth; key = []; error = some database }
  scanned (row r) = with_token (auth_of r) r.key r.blob

  -- findChannel
  unfoldable pub find_channel : Column → Text → Found
  find_channel column value = scanned (query column value)

  -- `if err == pgx.ErrNoRows { err = ErrUserNotFound }`
  abbrev not_found : Error → Error
  not_found no_such_row = user_not_found
  not_found e = e

  -- The check of a secret after the lookup.
  abbrev pub checked : Found → Bool → ChannelAuth × Option Error
  checked f matches = elim f.error [
    | some e ↦ (f.auth, some (not_found e))
    | none ↦ (f.auth, if matches then none else some user_not_found)
  ]

  -- VerifyRTMP, on the path and the `key` of the query of the URL.
  unfoldable pub verify_rtmp : Text → Text → ChannelAuth × Option Error
  unfolding path_base find_channel
  verify_rtmp path key =
      let f = find_channel by_name (path_base path) in checked f (text_eq key f.key)

  -- VerifyFTL
  unfoldable pub verify_ftl : Text → Text → Text → ChannelAuth × Option Error
  unfolding find_channel
  verify_ftl channel_id nonce hmac_provided =
      let f = find_channel by_ftl_id channel_id in
      checked f (text_eq (hmac_sha512 f.key nonce) hmac_provided)

  -- The stored token is absent, empty or well formed.
  abbrev pub token_ok : Option Text → Bool
  token_ok none = true
  token_ok (some []) = true
  token_ok (some (b ∷ bs)) = is_some (unmarshal_token (b ∷ bs))

  -- A channel with its row, whose stored token can be read.
  abbrev pub Readable : Column → Text → Row → Type 0
  Readable column value r = (query column value ≡ row r) × (token_ok r.blob ≡ true)

  pub checked_row :
      (auth : ChannelAuth) (key : Text) (blob : Option Text) (b : Bool)
      → ((checked (with_token auth key blob) b).1 ≡ none) ↔ ((token_ok blob ≡ true) × (b ≡ true))
  checked_row auth key none b = ground arith
  checked_row auth key (some []) b = ground arith
  checked_row auth key (some (_ ∷ _)) b = ground arith

  pub key-with_token :
      (auth : ChannelAuth) (key : Text) (blob : Option Text) → (with_token auth key blob).key ≡ key
  key-with_token auth key none = refl
  key-with_token auth key (some []) = refl
  key-with_token auth key (some (b ∷ bs)) = ground arith

  accepts_only :
      (channel_id nonce hmac : Text) (s : Scan)
      → query by_ftl_id channel_id ≡ s
      → (verify_ftl channel_id nonce hmac).1 ≡ none
      → (r : Row) × Readable by_ftl_id channel_id r × (hmac_sha512 r.key nonce ≡ hmac)
  unfolding verify_ftl
  accepts_only channel_id nonce hmac (row r) e h =
      let key = key-with_token (auth_of r) r.key r.blob in
      let (ok, same) =
        (checked_row (auth_of r) r.key r.blob
            (text_eq (hmac_sha512 (with_token (auth_of r) r.key r.blob).key nonce) hmac)).0
          (rw e at h) in
      (r, (e, ok), (text_eq_iff (hmac_sha512 r.key nonce) hmac).0 (rw key at same))
  accepts_only channel_id nonce hmac no_rows e h = ground arith
  accepts_only channel_id nonce hmac failed e h = ground arith

  accepts_all :
      (channel_id nonce hmac : Text) (r : Row)
      → Readable by_ftl_id channel_id r
      → hmac_sha512 r.key nonce ≡ hmac
      → (verify_ftl channel_id nonce hmac).1 ≡ none
  unfolding verify_ftl
  accepts_all channel_id nonce hmac r readable same = ground (
    arith,
    checked_row (auth_of r) r.key r.blob
        (text_eq (hmac_sha512 (with_token (auth_of r) r.key r.blob).key nonce) hmac),
    key-with_token (auth_of r) r.key r.blob,
    text_eq_iff (hmac_sha512 r.key nonce) hmac,
  )

  rejects_row :
      (channel_id nonce hmac : Text) (r : Row) (blob : Option Text)
      → r.blob ≡ blob
      → Readable by_ftl_id channel_id r
      → hmac_sha512 r.key nonce ≢ hmac
      → (verify_ftl channel_id nonce hmac).1 ≡ some user_not_found
  unfolding verify_ftl
  rejects_row channel_id nonce hmac r none e readable differ =
      ground (arith, text_eq_iff (hmac_sha512 r.key nonce) hmac)
  rejects_row channel_id nonce hmac r (some []) e readable differ =
      ground (arith, text_eq_iff (hmac_sha512 r.key nonce) hmac)
  rejects_row channel_id nonce hmac r (some (b ∷ bs)) e readable differ =
      ground (arith, text_eq_iff (hmac_sha512 r.key nonce) hmac)

  -- VerifyFTL accepts exactly the HMAC of the nonce under the key of a channel that has a row with
  -- a readable token.
  pub verify_ftl_exact :
      (channel_id nonce hmac : Text)
      → ((verify_ftl channel_id nonce hmac).1 ≡ none)
        ↔ ((r : Row) × Readable by_ftl_id channel_id r × (hmac_sha512 r.key nonce ≡ hmac))
  unfolding verify_ftl
  verify_ftl_exact channel_id nonce hmac = (
    accepts_only channel_id nonce hmac _ refl,
    λ (r, readable, same). accepts_all channel_id nonce hmac r readable same,
  )

  -- A channel that does not exist and a wrong digest for one that does give the same error.
  pub verify_ftl_rejects :
      (channel_id nonce hmac : Text)
      → (query by_ftl_id channel_id ≡ no_rows)
        ⊎ ((r : Row) × Readable by_ftl_id channel_id r × (hmac_sha512 r.key nonce ≢ hmac))
      → (verify_ftl channel_id nonce hmac).1 ≡ some user_not_found
  unfolding verify_ftl
  verify_ftl_rejects channel_id nonce hmac (inl e) = ground arith
  verify_ftl_rejects channel_id nonce hmac (inr (r, readable, differ)) =
      rejects_row channel_id nonce hmac r r.blob refl readable differ
