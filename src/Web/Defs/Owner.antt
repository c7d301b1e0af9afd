-- ===== src/Web/Defs/Owner.antt =====
-- Whose channels a request changes, and how.
use gunk.Base.{
  ◌≡◌, ◌≢◌, ◌∙◌, refl, ap, Bool, true, false, some, List, [], ◌∷◌, ◌++◌, map, Text, text_eq,
  text_eq_iff, text_eq_refl, text_eq_ne, append-nil, All, arith,
}
use gunk.Web.Login.{Site, Checked, user, unauthorized, aborted, check_auth}
use gunk.Web.Defs.{
  Row, Fault, fine, conflict, broken, Urls, def_of, set_url, rows_of, whole, refused, broken_after,
  list_channel_defs, Listing, unreadable, invalid, parsed, create_channel, announcing, any_named,
  update_channel, updated, without, delete_channel, view_defs, view_defs_create, view_defs_update,
  view_defs_delete, defs, as_user, Call, lists, creates, updates, deletes, view, Request, handle,
  run,
}

rows_of-append :
    (v : Text) (table more : List Row)
    → rows_of v (table ++ more) ≡ rows_of v table ++ rows_of v more
unfolding rows_of
rows_of-append v [] more = refl
rows_of-append v (r ∷ table) more = let ih = rows_of-append v table more in ground (arith, ih)

rows_of-announcing :
    (announce : Bool) (w name v : Text) (table : List Row)
    → text_eq w v ≡ false
    → rows_of v (announcing announce w name table) ≡ rows_of v table
unfolding rows_of announcing
rows_of-announcing announce w name v [] other = refl
rows_of-announcing announce w name v (r ∷ table) other =
    let ih = rows_of-announcing announce w name v table other in
    ground (arith, ih, other, text_eq_iff r.user_id w)

rows_of-without :
    (w name v : Text) (table : List Row)
    → text_eq w v ≡ false
    → rows_of v (without w name table) ≡ rows_of v table
unfolding rows_of without
rows_of-without w name v [] other = refl
rows_of-without w name v (r ∷ table) other =
    let ih = rows_of-without w name v table other in
    ground (arith, ih, other, text_eq_iff r.user_id w)

rows_of-other : (r : Row) (v : Text) → text_eq r.user_id v ≡ false → rows_of v (r ∷ []) ≡ []
unfolding rows_of
rows_of-other r v other = rw other refl

rows_of-own : (r : Row) (v : Text) → text_eq r.user_id v ≡ true → rows_of v (r ∷ []) ≡ r ∷ []
unfolding rows_of
rows_of-own r v own = rw own refl

rows_of-create :
    (u : Urls) (f : Fault) (key name : Text) (table : List Row) (w v : Text)
    → text_eq w v ≡ false
    → rows_of v (view_defs_create u f key (parsed name) table w).table ≡ rows_of v table
unfolding view_defs_create create_channel
rows_of-create u fine key name table w v other =
    rows_of-append v table (record { user_id = w; name = name; key = key; announce = true } ∷ [])
    ∙ ap (λ l. rows_of v table ++ l)
        (rows_of-other (record { user_id = w; name = name; key = key; announce = true }) v other)
    ∙ append-nil (rows_of v table)
rows_of-create u conflict key name table w v other = refl
rows_of-create u broken key name table w v other = refl

rows_of-view_defs :
    (u : Urls) (l : Listing) (table : List Row) (w : Text) → (view_defs u l table w).table ≡ table
unfolding view_defs list_channel_defs
rows_of-view_defs u whole table w = refl
rows_of-view_defs u refused table w = refl
rows_of-view_defs u (broken_after n) table w = refl

table-updated : (ok : Bool) (table : List Row) → (updated (ok, table)).table ≡ table
table-updated true table = refl
table-updated false table = refl

rows_of-view :
    (u : Urls) (call : Call) (table : List Row) (w v : Text)
    → text_eq w v ≡ false
    → rows_of v (view u call table w).table ≡ rows_of v table
unfolding view_defs_create view_defs_update view_defs_delete update_channel delete_channel
rows_of-view u (lists l) table w v other = ap (rows_of v) (rows_of-view_defs u l table w)
rows_of-view u (creates f key unreadable) table w v other = refl
rows_of-view u (creates f key invalid) table w v other = refl
rows_of-view u (creates f key (parsed name)) table w v other =
    rows_of-create u f key name table w v other
rows_of-view u (updates f unreadable name) table w v other = refl
rows_of-view u (updates f invalid name) table w v other = refl
rows_of-view u (updates conflict (parsed a) name) table w v other = refl
rows_of-view u (updates broken (parsed a) name) table w v other = refl
rows_of-view u (updates fine (parsed a) name) table w v other =
    ap (rows_of v) (table-updated (any_named w name table) (announcing a w name table))
    ∙ rows_of-announcing a w name v table other
rows_of-view u (deletes fine name) table w v other = rows_of-without w name v table other
rows_of-view u (deletes conflict name) table w v other = refl
rows_of-view u (deletes broken name) table w v other = refl

rows_of-handle :
    (s : Site) (u : Urls) (r : Request) (table : List Row) (v : Text)
    → check_auth s r.cookies ≢ user v
    → rows_of v (handle s u r table).table ≡ rows_of v table
unfolding handle
rows_of-handle s u r table v other = go (check_auth s r.cookies) other
  where
    go :
        (c : Checked)
        → c ≢ user v
        → rows_of v (as_user c table (view u r.call table)).table ≡ rows_of v table
    go unauthorized other = refl
    go aborted other = refl
    go (user []) other = refl
    go (user (c ∷ cs)) other =
        rows_of-view u r.call table (c ∷ cs) v
          (text_eq_ne (c ∷ cs) v (λ e. other (ap (λ x. user x) e)))

-- Whatever requests come, and whatever the database makes of them, a user's channels stay as they
-- are unless one of the requests brings a login cookie of that user.
pub run-keeps_rows :
    (s : Site) (u : Urls) (v : Text) (rs : List Request) (table : List Row)
    → All (λ r. check_auth s r.cookies ≢ user v) rs
    → rows_of v (run s u rs table) ≡ rows_of v table
unfolding run
run-keeps_rows s u v [] table all = refl
run-keeps_rows s u v (r ∷ rs) table (other, all) =
    run-keeps_rows s u v rs (handle s u r table).table all ∙ rows_of-handle s u r table v other

announcing-rows_of :
    (announce : Bool) (w name : Text) (table : List Row)
    → rows_of w (announcing announce w name table) ≡ announcing announce w name (rows_of w table)
unfolding rows_of announcing
announcing-rows_of announce w name [] = refl
announcing-rows_of announce w name (r ∷ table) =
    let ih = announcing-rows_of announce w name table in ground (arith, ih)

without-rows_of :
    (w name : Text) (table : List Row)
    → rows_of w (without w name table) ≡ without w name (rows_of w table)
unfolding rows_of without
without-rows_of w name [] = refl
without-rows_of w name (r ∷ table) = let ih = without-rows_of w name table in ground (arith, ih)

any_named-without :
    (w name : Text) (table : List Row) → any_named w name (without w name table) ≡ false
unfolding without
any_named-without w name [] = refl
any_named-without w name (r ∷ table) = let ih = any_named-without w name table in ground (arith, ih)

map-set_url :
    (u : Urls) (rows : List Row)
    → map (set_url u) (map def_of rows) ≡ map (λ r. set_url u (def_of r)) rows
map-set_url u [] = refl
map-set_url u (r ∷ rows) = ap (λ l. set_url u (def_of r) ∷ l) (map-set_url u rows)

-- A user whose requests the database carries out finds the channels in the list as they were made:
-- a new one at the end, with the key that was drawn and announced; an update sets the flag of the
-- channel with that name alone; and a deleted name is gone, the others being as they were.
pub view-own_rows :
    (u : Urls) (w name key : Text) (announce : Bool) (table : List Row)
    → ((view_defs u whole (view u (creates fine key (parsed name)) table w).table w).writes
        ≡ defs (
            some (
              map
                (λ r. set_url u (def_of r))
                (rows_of w table
                  ++ record { user_id = w; name = name; key = key; announce = true } ∷ [])))
          ∷ [])
      × (rows_of w (view u (updates fine (parsed announce) name) table w).table
          ≡ announcing announce w name (rows_of w table))
      × (rows_of w (view u (deletes fine name) table w).table ≡ without w name (rows_of w table))
      × (any_named w name (view u (deletes fine name) table w).table ≡ false)
unfolding view_defs list_channel_defs view_defs_create create_channel view_defs_update
    update_channel view_defs_delete delete_channel
view-own_rows u w name key announce table =
    let new : Row = record { user_id = w; name = name; key = key; announce = true } in
    (
      ap (λ l. defs (some l) ∷ [])
          (map-set_url u (rows_of w (table ++ new ∷ []))
            ∙ ap (map (λ r. set_url u (def_of r))) (
                rows_of-append w table (new ∷ [])
                ∙ ap (λ l. rows_of w table ++ l) (rows_of-own new w (text_eq_refl w)))),
      ap (rows_of w) (table-updated (any_named w name table) (announcing announce w name table))
          ∙ announcing-rows_of announce w name table,
      without-rows_of w name table,
      any_named-without w name table,
    )
