-- ===== src/Ftl/Receivers/Table.antt =====
-- The receiver table: what a lookup gives after sessions have begun and ended.
use gunk.Base.{
  ℕ, ◌≡◌, ◌≢◌, refl, Bool, true, false, ◌&&◌, ◌||◌, none, some, List, [], ◌∷◌, arith, if◌then◌else◌,
  Text, text_eq, text_eq_iff,
}
use gunk.Base.Dict.{Dict, get, put, delete, get-put, get-delete}
use gunk.Ftl.Receivers.{add_receiver, del_receiver, holds}

abbrev pub has_key : Text → List Text → Bool
has_key j [] = false
has_key j (k ∷ ks) = text_eq k j || has_key j ks

-- After addReceiver the session's keys lead to its channel, and no other lookup has changed.
pub get-add_receiver :
    (keys : List Text) (ch : ℕ) (m : Dict ℕ) (j : Text)
    → get j (add_receiver keys ch m) ≡ (if has_key j keys then some ch else get j m)
unfolding add_receiver
get-add_receiver [] ch m j = refl
get-add_receiver (k ∷ ks) ch m j =
    ground (arith, get-add_receiver ks ch (put k ch m) j, get-put k j ch m)

-- After delReceiver the keys that led to the session's channel lead nowhere, and no other lookup
-- has changed: not that of a key which another session has taken over.
pub get-del_receiver :
    (keys : List Text) (ch : ℕ) (m : Dict ℕ) (j : Text)
    → get j (del_receiver keys ch m)
      ≡ (if has_key j keys && holds (get j m) ch then none else get j m)
unfolding del_receiver
get-del_receiver [] ch m j = refl
get-del_receiver (k ∷ ks) ch m j = ground (
  arith,
  get-del_receiver ks ch m j,
  get-del_receiver ks ch (delete k m) j,
  get-delete k j m,
  text_eq_iff k j,
)

-- A session that begins on keys of an older one keeps them when the older one ends.
pub takeover :
    (old new : List Text) (a b : ℕ) (m : Dict ℕ) (j : Text)
    → a ≢ b
    → has_key j new ≡ true
    → get j (del_receiver old a (add_receiver new b (add_receiver old a m))) ≡ some b
takeover old new a b m j differ has = ground (
  arith,
  get-del_receiver old a (add_receiver new b (add_receiver old a m)) j,
  get-add_receiver new b (add_receiver old a m) j,
)
