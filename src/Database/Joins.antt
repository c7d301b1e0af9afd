-- ===== src/Database/Joins.antt =====
-- What the statements do to the query of findChannel.
use gunk.Base.{
  ◌≡◌, refl, inl, inr, Bool, true, false, not, ◌&&◌, none, some, List, [], ◌∷◌, ◌++◌, if◌then◌else◌,
  Text, text_eq, text_eq_iff, All, Bool-cases, arith,
}
use gunk.Web.Defs.{Row, without}
use gunk.Database.{User, upsert_user, find_user, find_row}

pub find_row-append :
    (test : Row → Bool) (table : List Row) (r : Row)
    → find_row test table ≡ none
    → test r ≡ true
    → find_row test (table ++ r ∷ []) ≡ some r
unfolding find_row
find_row-append test [] r fresh is = rw is refl
find_row-append test (q ∷ table) r fresh is = elim (Bool-cases (test q)) [
  | inl at ↦ absurd (ground (arith, fresh, at))
  | inr other ↦ rw other (find_row-append test table r (ground (arith, fresh, other)) is)
]

-- Every row with the name is the user's.
abbrev pub Owns : Text → Text → List Row → Type 0
Owns user_id name table =
    All (λ r. text_eq r.name name && not (text_eq r.user_id user_id) ≡ false) table

pub find_row-without :
    (user_id name : Text) (table : List Row)
    → Owns user_id name table
    → find_row (λ r. text_eq r.name name) (without user_id name table) ≡ none
unfolding find_row without
find_row-without user_id name [] owns = refl
find_row-without user_id name (r ∷ table) (here, owns) =
    let ih = find_row-without user_id name table owns in ground (arith, ih, here)

pub find_user-upsert_user :
    (u : User) (users : List User) (user_id : Text)
    → find_user user_id (upsert_user u users)
      ≡ (if text_eq u.user_id user_id then some u else find_user user_id users)
unfolding find_user upsert_user
find_user-upsert_user u [] user_id = refl
find_user-upsert_user u (v ∷ users) user_id = ground (
  arith,
  find_user-upsert_user u users user_id,
  text_eq_iff v.user_id u.user_id,
  text_eq_iff u.user_id user_id,
  text_eq_iff v.user_id user_id,
)
