-- ===== src/Web/Defs.antt =====
-- web/channel_def.go and model/channel_def.go: the channels that a user defines. The table
-- channel_defs is a list of rows, on which each statement does what its SQL says, or fails as
-- Postgres decides; the key that is drawn and the escaping of net/url stand in the arguments.
pub mod Owner
use gunk.Base.{
  ℕ, zero, suc, ◌+◌, Bool, true, false, not, ◌&&◌, Option, none, some, List, [], ◌∷◌, ◌++◌, map,
  ◌==◌, if◌then◌else◌, Text, codes, text_eq, length, take,
}
use gunk.Base.Dict.{Dict}
use gunk.Web.Login.{Site, Checked, user, unauthorized, aborted, check_auth}

pub record Row : Type 0 where
  pub user_id : Text
  pub name : Text
  pub key : Text
  pub announce : Bool

-- What becomes of a statement: it is done, it breaks the uniqueness of a name, or fails otherwise.
pub data Fault : Type 0 where
  fine : Fault
  conflict : Fault
  broken : Fault

pub record ChannelDef : Type 0 where
  pub name : Text
  pub key : Text
  pub announce : Bool
  pub rtmp_dir : Text
  pub rtmp_base : Text

-- The base address for publishers, url.PathEscape, and url.QueryEscape, which Values.Encode
-- applies.
pub record Urls : Type 0 where
  pub advertise_rtmp : Text
  pub path_escape : Text → Text
  pub query_escape : Text → Text

-- SetURL
abbrev pub set_url : Urls → ChannelDef → ChannelDef
set_url u d = record d {
  rtmp_dir = u.advertise_rtmp;
  rtmp_base = u.path_escape d.name ++ codes "?" ++ codes "key=" ++ u.query_escape d.key;
}

abbrev pub def_of : Row → ChannelDef
def_of r = record {
  name = r.name;
  key = r.key;
  announce = r.announce;
  rtmp_dir = [];
  rtmp_base = [];
}

abbrev pub is_of : Text → Row → Bool
is_of user_id r = text_eq r.user_id user_id

abbrev pub is_named : Text → Text → Row → Bool
is_named user_id name r = text_eq r.user_id user_id && text_eq r.name name

-- SELECT … WHERE user_id = $1
unfoldable pub rows_of : Text → List Row → List Row
rows_of user_id [] = []
rows_of user_id (r ∷ table) =
    let rest = rows_of user_id table in if is_of user_id r then r ∷ rest else rest

-- How a listing ends: whole, refused, or broken off after some rows.
pub data Listing : Type 0 where
  whole : Listing
  refused : Listing
  broken_after : ℕ → Listing

-- ListChannelDefs: the channels and whether there is no error. A nil slice is none.
unfoldable pub list_channel_defs : Listing → Text → List Row → Option (List ChannelDef) × Bool
unfolding rows_of
list_channel_defs whole user_id table = (some (map def_of (rows_of user_id table)), true)
list_channel_defs refused user_id table = (none, false)
list_channel_defs (broken_after n) user_id table =
    (some (map def_of (take n (rows_of user_id table))), false)

-- CreateChannel, with the key that is drawn.
unfoldable pub create_channel : Fault → Text → Text → Text → List Row → Option ChannelDef × List Row
create_channel fine key user_id name table =
    let r : Row = record { user_id = user_id; name = name; key = key; announce = true } in
    (some (def_of r), table ++ r ∷ [])
create_channel _ key user_id name table = (none, table)

-- UPDATE … SET announce = $1 WHERE user_id = $2 AND name = $3
unfoldable pub announcing : Bool → Text → Text → List Row → List Row
announcing announce user_id name [] = []
announcing announce user_id name (r ∷ table) =
    (if is_named user_id name r then record r { announce = announce } else r)
    ∷ announcing announce user_id name table

abbrev pub any_named : Text → Text → List Row → Bool
any_named user_id name [] = false
any_named user_id name (r ∷ table) =
    let rest = any_named user_id name table in if is_named user_id name r then true else rest

-- UpdateChannel: whether there is no error; no row is one.
unfoldable pub update_channel : Fault → Text → Text → Bool → List Row → Bool × List Row
unfolding announcing
update_channel fine user_id name announce table =
    (any_named user_id name table, announcing announce user_id name table)
update_channel _ user_id name announce table = (false, table)

-- DELETE … WHERE user_id = $1 AND name = $2
unfoldable pub without : Text → Text → List Row → List Row
without user_id name [] = []
without user_id name (r ∷ table) =
    let rest = without user_id name table in if is_named user_id name r then rest else r ∷ rest

-- DeleteChannel
unfoldable pub delete_channel : Fault → Text → Text → List Row → Bool × List Row
unfolding without
delete_channel fine user_id name table = (true, without user_id name table)
delete_channel _ user_id name table = (false, table)

-- What a handler writes: an error with its status, or JSON.
pub data Write : Type 0 where
  error : ℕ → Write
  defs : Option (List ChannelDef) → Write
  def : ChannelDef → Write
  empty : Write

-- The writes of an answer, whether the handler has panicked, and the table.
pub record Answer : Type 0 where
  pub writes : List Write
  pub panicked : Bool
  pub table : List Row

-- What parseRequest makes of the body: writes an error, or gives the value.
pub data Body {ℓ} (A : Type ℓ) : Type ℓ where
  unreadable : Body A
  invalid : Body A
  parsed : A → Body A

abbrev pub writing : List Row → List Write → Answer
writing table ws = record { writes = ws; panicked = false; table = table }

-- `userID := s.checkAuth(…); if userID == "" { return }` in front of a handler.
abbrev pub as_user : Checked → List Row → (Text → Answer) → Answer
as_user unauthorized table handler = writing table (error 401 ∷ [])
as_user aborted table handler = record { writes = []; panicked = true; table = table }
as_user (user []) table handler = writing table []
as_user (user (c ∷ cs)) table handler = handler (c ∷ cs)

-- `if !parseRequest(…) { return }`
abbrev pub with_body {ℓ} : {A : Type ℓ} → Body A → List Row → (A → Answer) → Answer
with_body unreadable table handler = writing table (error 500 ∷ [])
with_body invalid table handler = writing table (error 400 ∷ [])
with_body (parsed a) table handler = handler a

-- An error is written, and the channels behind it all the same.
abbrev pub listed : Urls → List Row → Option (List ChannelDef) × Bool → Answer
listed u table (none, ok) = writing table (error 500 ∷ defs none ∷ [])
listed u table (some ds, true) = writing table (defs (some (map (set_url u) ds)) ∷ [])
listed u table (some ds, false) = writing table (error 500 ∷ defs (some (map (set_url u) ds)) ∷ [])

-- viewDefs
unfoldable pub view_defs : Urls → Listing → List Row → Text → Answer
unfolding list_channel_defs
view_defs u l table user_id = listed u table (list_channel_defs l user_id table)

abbrev pub create_status : Fault → ℕ
create_status conflict = 409
create_status _ = 500

abbrev pub created : Urls → Fault → Option ChannelDef × List Row → Answer
created u f (none, table) = writing table (error (create_status f) ∷ [])
created u f (some d, table) = writing table (def (set_url u d) ∷ [])

-- viewDefsCreate
unfoldable pub view_defs_create : Urls → Fault → Text → Body Text → List Row → Text → Answer
unfolding create_channel
view_defs_create u f key body table user_id =
    with_body body table (λ name. created u f (create_channel f key user_id name table))

abbrev pub updated : Bool × List Row → Answer
updated (true, table) = writing table (empty ∷ [])
updated (false, table) = writing table (error 500 ∷ [])

-- viewDefsUpdate
unfoldable pub view_defs_update : Fault → Body Bool → Text → List Row → Text → Answer
unfolding update_channel
view_defs_update f body name table user_id =
    with_body body table (λ announce. updated (update_channel f user_id name announce table))

-- On an error nothing is written, which is the status 200.
abbrev pub removed : Bool × List Row → Answer
removed (true, table) = writing table (empty ∷ [])
removed (false, table) = writing table []

-- viewDefsDelete
unfoldable pub view_defs_delete : Fault → Text → List Row → Text → Answer
unfolding delete_channel
view_defs_delete f name table user_id = removed (delete_channel f user_id name table)

-- The requests under /api/mychannels.
pub data Call : Type 0 where
  lists : Listing → Call
  creates : Fault → Text → Body Text → Call
  updates : Fault → Body Bool → Text → Call
  deletes : Fault → Text → Call

abbrev pub view : Urls → Call → List Row → Text → Answer
view u (lists l) = view_defs u l
view u (creates f key body) = view_defs_create u f key body
view u (updates f body name) = view_defs_update f body name
view u (deletes f name) = view_defs_delete f name

pub record Request : Type 0 where
  pub cookies : Dict Text
  pub call : Call

unfoldable pub handle : Site → Urls → Request → List Row → Answer
unfolding check_auth view_defs view_defs_create view_defs_update view_defs_delete
handle s u r table = as_user (check_auth s r.cookies) table (view u r.call table)

-- The table after some requests.
unfoldable pub run : Site → Urls → List Request → List Row → List Row
unfolding handle
run s u [] table = table
run s u (r ∷ rs) table = run s u rs (handle s u r table).table
