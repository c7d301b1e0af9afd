-- ===== src/Database.antt =====
-- model: the statements of the server on its tables, users, channel_defs and thumbs, and what
-- findChannel's join gives VerifyRTMP and VerifyFTL. A table is a list of rows; channel_defs is
-- that of Web.Defs. A statement does what its SQL says or fails, as its Fault says. The column
-- ftl_id, which no statement sets, is a function of the row.
pub mod Joins
pub mod Announcing
pub mod Provision
pub mod Thumbs
use gunk.Base.{
  ℕ, Bool, true, false, ◌&&◌, Option, none, some, List, [], ◌∷◌, ltb, leb, ◌-◌, ◌*◌, ◌/◌,
  if◌then◌else◌, Text, text_eq,
}
use gunk.Model
use gunk.Model.{Column, by_name, by_ftl_id, Scan, row, no_rows}
use gunk.Web.Defs.{Row, Fault, fine, conflict, broken}

-- A row of users; the token may be NULL.
pub record User : Type 0 where
  pub user_id : Text
  pub refresh_token : Option Text
  pub announce : Bool

-- INSERT … ON CONFLICT (user_id) DO UPDATE
unfoldable pub upsert_user : User → List User → List User
upsert_user u [] = u ∷ []
upsert_user u (v ∷ users) =
    let rest = upsert_user u users in if text_eq v.user_id u.user_id then u ∷ users else v ∷ rest

-- SetUser, with what json.Marshal makes of the token: whether there is no error.
unfoldable pub set_user : Fault → Option Text → Text → Bool → List User → Bool × List User
unfolding upsert_user
set_user f none user_id announce users = (false, users)
set_user fine (some blob) user_id announce users = (
  true,
  upsert_user (record { user_id = user_id; refresh_token = some blob; announce = announce }) users,
)
set_user _ (some blob) user_id announce users = (false, users)

unfoldable pub find_user : Text → List User → Option User
find_user user_id [] = none
find_user user_id (u ∷ users) =
    let rest = find_user user_id users in if text_eq u.user_id user_id then some u else rest

unfoldable pub find_row : (Row → Bool) → List Row → Option Row
find_row test [] = none
find_row test (r ∷ table) = let rest = find_row test table in if test r then some r else rest

-- LEFT JOIN users USING (user_id), with COALESCE(channel_defs.announce AND users.announce, false).
unfoldable pub join : Row → Option User → Model.Row
join r none = record {
  user_id = r.user_id;
  name = r.name;
  key = r.key;
  blob = none;
  announce = false;
}
join r (some u) = record {
  user_id = r.user_id;
  name = r.name;
  key = r.key;
  blob = u.refresh_token;
  announce = r.announce && u.announce;
}

abbrev pub scan_of : List User → Option Row → Scan
scan_of users none = no_rows
scan_of users (some r) = row (join r (find_user r.user_id users))

abbrev pub is_at : (Row → Text) → Column → Text → Row → Bool
is_at ftl_id by_name value r = text_eq r.name value
is_at ftl_id by_ftl_id value r = text_eq (ftl_id r) value

-- The query of findChannel: its first row.
unfoldable pub query_channel : (Row → Text) → List User → List Row → Column → Text → Scan
unfolding find_user find_row join
query_channel ftl_id users table column value =
    scan_of users (find_row (is_at ftl_id column value) table)
