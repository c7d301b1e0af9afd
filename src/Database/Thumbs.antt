-- ===== src/Database/Thumbs.antt =====
-- model/thumbs.go and channel_info.go: the table of thumbnails. A row that is stored anew gets its
-- time from the column's default, which is an argument, and the order of a listing is the
-- database's.
use gunk.Base.{
  ℕ, ◌/◌, ◌≡◌, refl, Bool, true, false, Option, none, some, List, [], ◌∷◌, map, if◌then◌else◌, Text,
  text_eq, text_eq_iff, arith,
}
use gunk.Web.Defs.{Fault, fine}

pub record Thumb : Type 0 where
  pub name : Text
  pub jpeg : Text
  pub updated : ℕ  -- nanoseconds

-- INSERT … ON CONFLICT (name) DO UPDATE SET thumb, updated = now()
unfoldable pub upsert_thumb : Text → Text → ℕ → ℕ → List Thumb → List Thumb
upsert_thumb name jpeg default_time now [] =
    record { name = name; jpeg = jpeg; updated = default_time } ∷ []
upsert_thumb name jpeg default_time now (t ∷ thumbs) =
    let rest = upsert_thumb name jpeg default_time now thumbs in
    if text_eq t.name name
    then record { name = name; jpeg = jpeg; updated = now } ∷ thumbs
    else t ∷ rest

-- PutThumb: whether there is no error.
unfoldable pub put_thumb : Fault → Text → Text → ℕ → ℕ → List Thumb → Bool × List Thumb
unfolding upsert_thumb
put_thumb fine name jpeg default_time now thumbs =
    (true, upsert_thumb name jpeg default_time now thumbs)
put_thumb _ name jpeg default_time now thumbs = (false, thumbs)

-- GetThumb: the picture, pgx.ErrNoRows, or another error.
pub data Got : Type 0 where
  got : Text → Got
  no_rows : Got
  failed : Got

unfoldable pub find_thumb : Text → List Thumb → Got
find_thumb name [] = no_rows
find_thumb name (t ∷ thumbs) =
    let rest = find_thumb name thumbs in if text_eq t.name name then got t.jpeg else rest

unfoldable pub get_thumb : Fault → Text → List Thumb → Got
unfolding find_thumb
get_thumb fine name thumbs = find_thumb name thumbs
get_thumb _ name thumbs = failed

-- A channel of a listing: its name, and the time of its thumbnail in milliseconds.
pub record Listed : Type 0 where
  pub name : Text
  pub last : ℕ

abbrev pub listed_of : Thumb → Listed
listed_of t = record { name = t.name; last = t.updated / 1000000 }

-- ListChannelInfo, on the rows in the order of the database; `none` is an error.
unfoldable pub list_channel_info : Fault → List Thumb → Option (List Listed)
list_channel_info fine rows = some (map listed_of rows)
list_channel_info _ rows = none

-- A thumbnail that is stored is the one that is got for the channel, and no other channel's
-- changes.
pub get_thumb-put_thumb :
    (name jpeg j : Text) (default_time now : ℕ) (thumbs : List Thumb)
    → get_thumb fine j (put_thumb fine name jpeg default_time now thumbs).1
      ≡ (if text_eq name j then got jpeg else get_thumb fine j thumbs)
unfolding get_thumb put_thumb
get_thumb-put_thumb name jpeg j default_time now [] = refl
get_thumb-put_thumb name jpeg j default_time now (t ∷ thumbs) = ground (
  arith,
  get_thumb-put_thumb name jpeg j default_time now thumbs,
  text_eq_iff t.name name,
  text_eq_iff name j,
  text_eq_iff t.name j,
)
