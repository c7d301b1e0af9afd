-- ===== src/Database/Provision.antt =====
-- From a user's request for a channel to the publisher who is let in: web/channel_def.go, model and
-- ingest/irtmp together.
use gunk.Base.{
  ◌≡◌, ◌≢◌, ◌∙◌, refl, sym, ap, inl, inr, true, false, Option, none, some, List, [], ◌∷◌, ◌++◌,
  Text, text_eq, arith, text_eq_refl, Option-cases,
}
use gunk.Model
use gunk.Model.{
  ChannelAuth, Token, Column, by_name, by_ftl_id, Scan, row, no_rows, path_base, token_ok, auth_of,
  with_token, checked, find_channel, verify_rtmp, verify_ftl, verify_ftl_exact, user_not_found,
  no_auth,
}
use gunk.Ingest.Rtmp.{handle_publish, of_row, handle_publish-verified}
use gunk.Web.Login.{Site, user, check_auth}
use gunk.Web.Defs.{
  Row, fine, Urls, def_of, set_url, creates, deletes, parsed, def, Request, handle, as_user, view,
  view_defs_create, create_channel, view_defs_delete, delete_channel,
}
use gunk.Database.{User, find_user, find_row, join, scan_of, is_at, query_channel}
use gunk.Database.Joins.{find_row-append, Owns, find_row-without}

-- The refresh token that is stored for a user.
abbrev pub token_of : Option User → Option Text
token_of none = none
token_of (some u) = u.refresh_token

blob-join : (r : Row) (u : Option User) → (join r u).blob ≡ token_of u
unfolding join
blob-join r none = refl
blob-join r (some u) = refl

record IsJoined (q : Model.Row) (user_id name key : Text) : Type 0 where
  same_user : q.user_id ≡ user_id
  same_name : q.name ≡ name
  same_key : key ≡ q.key

join-IsJoined : (r : Row) (u : Option User) → IsJoined (join r u) r.user_id r.name r.key
unfolding join
join-IsJoined r none = record { same_user = refl; same_name = refl; same_key = refl }
join-IsJoined r (some u) = record { same_user = refl; same_name = refl; same_key = refl }

module _ (unmarshal_token : Text → Option (Option Token)) (hmac_sha512 : Text → Text → Text)
    (ftl_id : Row → Text) where
  -- The query of findChannel on the tables.
  abbrev pub asks : List User → List Row → Column → Text → Scan
  asks users table = query_channel ftl_id users table

  user_id-of_row :
      (query : Column → Text → Scan) (r : Model.Row)
      → ((of_row query unmarshal_token hmac_sha512 r).user_id ≡ r.user_id)
        × ((of_row query unmarshal_token hmac_sha512 r).name ≡ r.name)
  user_id-of_row query r = go r.blob
    where
      go :
          (blob : Option Text)
          → ((with_token query unmarshal_token hmac_sha512
                (auth_of query unmarshal_token hmac_sha512 r)
                r.key
                blob).auth.user_id
              ≡ r.user_id)
            × ((with_token query unmarshal_token hmac_sha512
                  (auth_of query unmarshal_token hmac_sha512 r)
                  r.key
                  blob).auth.name
                ≡ r.name)
      go none = (refl, refl)
      go (some []) = (refl, refl)
      go (some (b ∷ bs)) = elim (Option-cases (unmarshal_token (b ∷ bs))) [
        | inl bad ↦ rw (bad, with_token) (refl, refl)
        | inr (t, is) ↦ rw (is, with_token) (refl, refl)
      ]

  -- An RTMP publisher is let in under a path with a key, as a user on a channel.
  unfoldable pub LetsIn : (Column → Text → Scan) → Text → Text → Text → Text → Type 0
  LetsIn query path key user_id name =
      (auth : ChannelAuth) × ((handle_publish (verify_rtmp query unmarshal_token hmac_sha512) path
          key).published
        ≡ some auth)
      × (auth.user_id ≡ user_id)
      × (auth.name ≡ name)

  rtmp-LetsIn :
      (query : Column → Text → Scan) (path : Text) (q : Model.Row) (user_id name key : Text)
      → IsJoined q user_id name key
      → query by_name (path_base path) ≡ row q
      → token_ok query unmarshal_token hmac_sha512 q.blob ≡ true
      → LetsIn query path key user_id name
  unfolding LetsIn
  rtmp-LetsIn query path q user_id name key joined at ok =
      let (its_user, its_name) = user_id-of_row query q in
      (
        of_row query unmarshal_token hmac_sha512 q,
        (handle_publish-verified query unmarshal_token hmac_sha512 path key
              (of_row query unmarshal_token hmac_sha512 q)).1
            (q, (at, ok), joined.same_key, refl),
        its_user ∙ joined.same_user,
        its_name ∙ joined.same_name,
      )

  -- VerifyFTL gives the row's own auth beside the verdict.
  verify_ftl-of_row :
      (query : Column → Text → Scan) (channel_id nonce hmac : Text) (q : Model.Row)
      → query by_ftl_id channel_id ≡ row q
      → token_ok query unmarshal_token hmac_sha512 q.blob ≡ true
      → (verify_ftl query unmarshal_token hmac_sha512 channel_id nonce hmac).0
        ≡ of_row query unmarshal_token hmac_sha512 q
  unfolding verify_ftl find_channel
  verify_ftl-of_row query channel_id nonce hmac q at ok = rw at (go q.blob ok)
    where
      go :
          (blob : Option Text)
          → token_ok query unmarshal_token hmac_sha512 blob ≡ true
          → (checked query unmarshal_token hmac_sha512
              (with_token query unmarshal_token hmac_sha512
                (auth_of query unmarshal_token hmac_sha512 q)
                q.key
                blob)
              (text_eq
                (hmac_sha512
                  (with_token query unmarshal_token hmac_sha512
                    (auth_of query unmarshal_token hmac_sha512 q)
                    q.key
                    blob).key
                  nonce)
                hmac)).0
            ≡ (with_token query unmarshal_token hmac_sha512
                (auth_of query unmarshal_token hmac_sha512 q)
                q.key
                blob).auth
      go none ok = refl
      go (some []) ok = refl
      go (some (b ∷ bs)) ok = elim (Option-cases (unmarshal_token (b ∷ bs))) [
        | inl bad ↦ absurd (ground (arith, bad, ok))
        | inr (t, is) ↦ rw (is, with_token) refl
      ]

  ftl-checked :
      (query : Column → Text → Scan) (channel_id nonce hmac : Text) (q : Model.Row)
      (user_id name key : Text)
      → IsJoined q user_id name key
      → query by_ftl_id channel_id ≡ row q
      → token_ok query unmarshal_token hmac_sha512 q.blob ≡ true
      → hmac ≡ hmac_sha512 key nonce
      → (auth : ChannelAuth) × (verify_ftl query unmarshal_token hmac_sha512 channel_id nonce hmac
          ≡ (auth, none))
        × (auth.user_id ≡ user_id)
        × (auth.name ≡ name)
  ftl-checked query channel_id nonce hmac q user_id name key joined at ok is =
      let (its_user, its_name) = user_id-of_row query q in
      let verdict =
        (verify_ftl_exact query unmarshal_token hmac_sha512 channel_id nonce hmac).1
          (q, (at, ok), ap (λ k. hmac_sha512 k nonce) (sym joined.same_key) ∙ sym is) in
      (
        of_row query unmarshal_token hmac_sha512 q,
        (let user = verify_ftl-of_row query channel_id nonce hmac q at ok in cc),
        its_user ∙ joined.same_user,
        its_name ∙ joined.same_name,
      )

  query-created :
      (users : List User) (table : List Row) (column : Column) (value : Text) (r : Row)
      → find_row (is_at ftl_id column value) table ≡ none
      → is_at ftl_id column value r ≡ true
      → asks users (table ++ r ∷ []) column value ≡ row (join r (find_user r.user_id users))
  unfolding query_channel
  query-created users table column value r fresh at =
      ap (scan_of users) (find_row-append (is_at ftl_id column value) table r fresh at)

  -- The row that viewDefsCreate stores.
  abbrev pub new_row : Text → Text → Text → Row
  new_row user_id name key = record { user_id = user_id; name = name; key = key; announce = true }

  handle-created :
      (s : Site) (u : Urls) (r : Request) (table : List Row) (w name key : Text)
      → check_auth s r.cookies ≡ user w
      → w ≢ []
      → r.call ≡ creates fine key (parsed name)
      → handle s u r table ≡ record {
        writes = def (set_url u (def_of (new_row w name key))) ∷ [];
        panicked = false;
        table = table ++ new_row w name key ∷ [];
      }
  unfolding handle view_defs_create create_channel
  handle-created s u r table w name key is full call = rw (is, call) (go w full)
    where
      go :
          (w : Text)
          → w ≢ []
          → as_user (user w) table (view u (creates fine key (parsed name)) table) ≡ record {
            writes = def (set_url u (def_of (new_row w name key))) ∷ [];
            panicked = false;
            table = table ++ new_row w name key ∷ [];
          }
      go [] full = absurd (full refl)
      go (c ∷ cs) full = refl

  -- A logged-in user whose request for a channel of a new name the database carries out is told the
  -- key and the address, and with that key is at once let in as a publisher of that channel, by
  -- RTMP on every path that ends in its name, and by FTL under the number that the database gives
  -- the channel, if the number is new too and the token stored for the user, if any, can be read.
  pub create-publish :
      (s : Site) (u : Urls) (r : Request) (users : List User) (table : List Row)
      (w name key path nonce : Text)
      → check_auth s r.cookies ≡ user w
      → w ≢ []
      → r.call ≡ creates fine key (parsed name)
      → find_row (is_at ftl_id by_name name) table ≡ none
      → find_row (is_at ftl_id by_ftl_id (ftl_id (new_row w name key))) table ≡ none
      → token_ok (asks users table) unmarshal_token hmac_sha512 (token_of (find_user w users))
        ≡ true
      → path_base path ≡ name
      → let a = handle s u r table in
        (a.writes ≡ def (set_url u (def_of (new_row w name key))) ∷ [])
        × LetsIn (asks users a.table) path key w name
        × ((auth : ChannelAuth) × (verify_ftl
                (asks users a.table)
                unmarshal_token
                hmac_sha512
                (ftl_id (new_row w name key))
                nonce
                (hmac_sha512 key nonce)
              ≡ (auth, none))
            × (auth.user_id ≡ w)
            × (auth.name ≡ name))
  create-publish s u r users table w name key path nonce is full call fresh fresh_id ok based =
      let new = new_row w name key in
      let stored = table ++ new ∷ [] in
      let q = join new (find_user w users) in
      let joined = join-IsJoined new (find_user w users) in
      let readable : token_ok (asks users stored) unmarshal_token hmac_sha512 q.blob ≡ true =
        ap (token_ok (asks users stored) unmarshal_token hmac_sha512)
          (blob-join new (find_user w users))
        ∙ ok in
      let by_its_name : asks users stored by_name (path_base path) ≡ row q =
        ap (asks users stored by_name) based
        ∙ query-created users table by_name name new fresh (text_eq_refl name) in
      let by_its_number : asks users stored by_ftl_id (ftl_id new) ≡ row q =
        query-created users table by_ftl_id (ftl_id new) new fresh_id (text_eq_refl (ftl_id new)) in
      rw (handle-created s u r table w name key is full call) (
        refl,
        rtmp-LetsIn (asks users stored) path q w name key joined by_its_name readable,
        ftl-checked (asks users stored) (ftl_id new) nonce (hmac_sha512 key nonce) q w name key
            joined by_its_number readable refl,
      )

  -- Once the owner's request to delete a channel is carried out, no key lets an RTMP publisher in
  -- under its name: it is answered as a channel that never was, if every channel of that name was
  -- the owner's.
  pub delete-refuses :
      (s : Site) (u : Urls) (r : Request) (users : List User) (table : List Row)
      (w name path key : Text)
      → check_auth s r.cookies ≡ user w
      → w ≢ []
      → r.call ≡ deletes fine name
      → Owns w name table
      → path_base path ≡ name
      → let query = asks users (handle s u r table).table in
        (verify_rtmp query unmarshal_token hmac_sha512 path key ≡ (no_auth, some user_not_found))
        × ((handle_publish (verify_rtmp query unmarshal_token hmac_sha512) path key).published
            ≡ none)
  unfolding handle view_defs_delete delete_channel verify_rtmp find_channel query_channel
      handle_publish
  delete-refuses s u r users table w name path key is full call owns based =
      rw (is, call) (go w full owns)
    where
      go :
          (w : Text)
          → w ≢ []
          → Owns w name table
          → let query =
              asks users (as_user (user w) table (view u (deletes fine name) table)).table in
            (verify_rtmp query unmarshal_token hmac_sha512 path key
              ≡ (no_auth, some user_not_found))
            × ((handle_publish (verify_rtmp query unmarshal_token hmac_sha512) path key).published
                ≡ none)
      go [] full owns = absurd (full refl)
      go (c ∷ cs) full owns =
          let gone = find_row-without (c ∷ cs) name table owns in rw (based, gone) (refl, refl)
