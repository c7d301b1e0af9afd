-- ===== src/Ingest/Rtmp.antt =====
-- ingest/irtmp/rtmp.go: what a connection of joy4's RTMP server comes to. CheckUser is a function
-- of the path and the `key` of its URL, as VerifyRTMP is.
use gunk.Base.{
  ◌≡◌, ◌∙◌, ◌↔◌, refl, sym, ap, subst, Bool, true, Option, none, some, Text, text_eq, text_eq_iff,
  arith, Option-cases, inl, inr,
}
use gunk.Model.{
  ChannelAuth, Error, Column, by_name, Row, row, no_rows, failed, Scan, find_channel, path_base,
  auth_of, with_token, Found, scanned, token_ok, checked, checked_row, key-with_token, verify_rtmp,
  Readable, Token,
}

-- What is handed to Publish, if it is called, and whether the connection is closed.
pub record Handled : Type 0 where
  pub published : Option ChannelAuth
  pub closed : Bool

abbrev pub passed_on : ChannelAuth × Option Error → Handled
passed_on (auth, none) = record { published = some auth; closed = true }
passed_on (auth, some e) = record { published = none; closed = true }

-- handlePublish, up to its return; the error of Publish is only logged.
unfoldable pub handle_publish : (Text → Text → ChannelAuth × Option Error) → Text → Text → Handled
handle_publish check_user path key = passed_on (check_user path key)

row_or : Row → Scan → Row
row_or d (row r) = r
row_or d no_rows = d
row_or d failed = d

module _ (query : Column → Text → Scan) (unmarshal_token : Text → Option (Option Token))
    (hmac_sha512 : Text → Text → Text) where
  -- The channel of a row, with its token.
  abbrev pub of_row : Row → ChannelAuth
  of_row r =
      (with_token query unmarshal_token hmac_sha512 (auth_of query unmarshal_token hmac_sha512 r)
        r.key r.blob).auth

  abbrev IsOfRow : Scan → Text → ChannelAuth → Type 0
  IsOfRow s key auth =
      (r : Row) × ((s ≡ row r) × (token_ok query unmarshal_token hmac_sha512 r.blob ≡ true))
      × (key ≡ r.key)
      × (auth ≡ of_row r)

  abbrev outcome : Found → Text → ChannelAuth × Option Error
  outcome f key = checked query unmarshal_token hmac_sha512 f (text_eq key f.key)

  published-passed_on :
      (p : ChannelAuth × Option Error) (auth : ChannelAuth)
      → ((passed_on p).published ≡ some auth) ↔ ((p.1 ≡ none) × (auth ≡ p.0))
  published-passed_on (a, none) auth = ground arith
  published-passed_on (a, some e) auth = ground arith

  auth-checked : (f : Found) (b : Bool) → (checked query unmarshal_token hmac_sha512 f b).0 ≡ f.auth
  auth-checked f b = elim (Option-cases f.error) [
    | inl fine ↦ rw fine refl
    | inr (e, is) ↦ rw is refl
  ]

  of_this :
      (r : Row) (key : Text) (auth : ChannelAuth)
      → IsOfRow (row r) key auth
      → (token_ok query unmarshal_token hmac_sha512 r.blob ≡ true)
        × (key ≡ r.key)
        × (auth ≡ of_row r)
  unfolding row_or
  of_this r key auth (q, (e, ok), same, is) =
      let back : q ≡ r = sym (ap (row_or r) e) in
      (
        subst (λ x. token_ok query unmarshal_token hmac_sha512 x.blob ≡ true) back ok,
        subst (λ x. key ≡ x.key) back same,
        subst (λ x. auth ≡ of_row x) back is,
      )

  outcome-IsOfRow :
      (s : Scan) (key : Text) (auth : ChannelAuth)
      → (((outcome (scanned query unmarshal_token hmac_sha512 s) key).1 ≡ none)
          × (auth ≡ (outcome (scanned query unmarshal_token hmac_sha512 s) key).0))
        ↔ IsOfRow s key auth
  outcome-IsOfRow no_rows key auth =
      (λ h. absurd (ground (arith, h)), λ h. absurd (ground (arith, h.1)))
  outcome-IsOfRow failed key auth =
      (λ h. absurd (ground (arith, h)), λ h. absurd (ground (arith, h.1)))
  outcome-IsOfRow (row r) key auth =
      let f =
        with_token query unmarshal_token hmac_sha512 (auth_of query unmarshal_token hmac_sha512 r)
          r.key r.blob in
      let key_of : f.key ≡ r.key =
        key-with_token query unmarshal_token hmac_sha512
          (auth_of query unmarshal_token hmac_sha512 r) r.key r.blob in
      let (accepted, accepts) =
        checked_row query unmarshal_token hmac_sha512 (auth_of query unmarshal_token hmac_sha512 r)
          r.key r.blob (text_eq key f.key) in
      let given = auth-checked f (text_eq key f.key) in
      (
        λ h.
            let (ok, same) = accepted h.0 in
            (r, (refl, ok), (text_eq_iff key f.key).0 same ∙ key_of, h.1 ∙ given),
        λ h.
            let (ok, same, is) = of_this r key auth h in
            (accepts (ok, (text_eq_iff key f.key).1 (same ∙ sym key_of)), is ∙ sym given),
      )

  -- With VerifyRTMP as CheckUser, an RTMP connection is published exactly if the last element of
  -- its path is the name of a channel whose token can be read and its key is that channel's, and
  -- then as that channel and its owner.
  pub handle_publish-verified :
      (path key : Text) (auth : ChannelAuth)
      → ((handle_publish (verify_rtmp query unmarshal_token hmac_sha512) path key).published
          ≡ some auth)
        ↔ ((r : Row) × Readable query unmarshal_token hmac_sha512 by_name (path_base path) r
            × (key ≡ r.key)
            × (auth ≡ of_row r))
  unfolding handle_publish verify_rtmp find_channel
  handle_publish-verified path key auth =
      let s = query by_name (path_base path) in
      let (to_row, of_it) = outcome-IsOfRow s key auth in
      let (passed, back) =
        published-passed_on (outcome (scanned query unmarshal_token hmac_sha512 s) key) auth in
      (λ h. let (r, at, same, is) = to_row (passed h) in (r, at, same, is), λ h. back (of_it h))
