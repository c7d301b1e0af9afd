-- ===== src/Database/Announcing.antt =====
-- What a login stores, and what a publisher's channel is told of it.
use gunk.Base.{
  ◌≡◌, refl, Bool, true, ◌&&◌, Option, none, some, List, if◌then◌else◌, Text, text_eq, Bool-cases,
  inl, inr,
}
use gunk.Model.{Column, row}
use gunk.Web.Login.{Site, Discord, lookup_user, is_member}
use gunk.Web.Defs.{Row, Fault, fine}
use gunk.Database.{User, set_user, find_row, join, is_at, query_channel}
use gunk.Database.Joins.{find_user-upsert_user}

module _ {ℓ} {Token : Type ℓ} (marshal : Token → Option Text) where
  -- The call of SetUser that a lookup makes, if it makes one.
  unfoldable pub store_user : Fault → Option (Text × Token × Bool) → List User → Bool × List User
  unfolding set_user
  store_user f none users = (true, users)
  store_user f (some (user_id, t, announce)) users = set_user f (marshal t) user_id announce users

  -- A lookup of a user that Discord answers and the database stores decides what findChannel says
  -- of that user's channels from then on: the token is the one that Discord gave back, and the
  -- channel is announced if its own flag is set and the user is a member of the guild. Other users'
  -- channels are as they were.
  pub query_channel-store_user :
      (s : Site) (d : Discord Token) (guilds : List Text) (t : Token) (blob : Text)
      (ftl_id : Row → Text) (users : List User) (table : List Row) (column : Column) (value : Text)
      (r : Row)
      → d.user_ok ≡ true
      → d.guilds ≡ some guilds
      → d.new_token ≡ some t
      → marshal t ≡ some blob
      → find_row (is_at ftl_id column value) table ≡ some r
      → query_channel ftl_id (store_user fine (lookup_user s d).set_user users).1 table column value
        ≡ (if text_eq d.user.id r.user_id
            then row (record {
              user_id = r.user_id;
              name = r.name;
              key = r.key;
              blob = some blob;
              announce = r.announce && is_member s.check_guild guilds;
            })
            else query_channel ftl_id users table column value)
  unfolding store_user set_user lookup_user query_channel join
  query_channel-store_user s d guilds t blob ftl_id users table column value r fine_user listed
        given written at =
      let u : User = record {
        user_id = d.user.id;
        refresh_token = some blob;
        announce = is_member s.check_guild guilds;
      } in
      let found = find_user-upsert_user u users r.user_id in
      rw (fine_user, listed, given, written, at, found)
        (elim (Bool-cases (text_eq d.user.id r.user_id)) [
          | inl its ↦ rw its refl
          | inr other ↦ rw other refl
        ])
