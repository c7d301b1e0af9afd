-- ===== src/Web/Files/Immutable.antt =====
-- Which files a browser may keep without asking again.
use gunk.Base.{
  ℕ, zero, suc, ◌≤◌, ◌≡◌, ◌≢◌, ◌↔◌, ◌⊎◌, ◌∙◌, refl, ap, subst, not, text_eq, inl, inr, Bool, true,
  false, ◌&&◌, ◌||◌, Option, none, some, [], ◌∷◌, ◌++◌, ◌==◌, if◌then◌else◌, Text, codes, length,
  All, Bool-cases, arith,
}
use gunk.Base.Dict.{Dict, get, put, get-put}
use gunk.Web.Routes.{is_routed}
use gunk.Web.Files.{
  is_hex, is_extension, ends_hashed, immutable_files, cache_control, middleware, cache_immutable,
  is_page, ui_answer, ui_routed, Target, index, cdn, ui, is_avatar, kept_for_long, asked_again,
  content_type_options, referrer_policy,
}

-- Some hexadecimal digits, as many as asked for or more, and then an extension.
pub record Hashed (n : ℕ) (t : Text) : Type 0 where
  pub hash : Text
  pub extension : Text
  pub splits : t ≡ hash ++ extension
  pub digits : All (λ c. is_hex c ≡ true) hash
  pub enough : n ≤ length hash
  pub known : is_extension extension ≡ true

ends_hashed-Hashed : (n : ℕ) (t : Text) → ends_hashed n t ≡ true → Hashed n t
unfolding ends_hashed
ends_hashed-Hashed zero [] h = absurd (ground (arith, h))
ends_hashed-Hashed (suc n) [] h = absurd (ground (arith, h))
ends_hashed-Hashed zero (c ∷ cs) h = elim (Bool-cases (is_extension (c ∷ cs))) [
  | inl is ↦ record {
    hash = [];
    extension = c ∷ cs;
    splits = refl;
    digits = tt;
    enough = omega arith;
    known = is;
  }
  | inr more ↦
      let rest = ends_hashed-Hashed zero cs (ground (arith, h, more)) in
      record {
        hash = c ∷ rest.hash;
        extension = rest.extension;
        splits = ap (λ l. c ∷ l) rest.splits;
        digits = (ground (arith, h, more), rest.digits);
        enough = omega arith;
        known = rest.known;
      }
]
ends_hashed-Hashed (suc n) (c ∷ cs) h =
    let rest = ends_hashed-Hashed n cs (ground (arith, h)) in
    record {
      hash = c ∷ rest.hash;
      extension = rest.extension;
      splits = ap (λ l. c ∷ l) rest.splits;
      digits = (ground (arith, h), rest.digits);
      enough = let e = rest.enough in omega arith;
      known = rest.known;
    }

Hashed-hash :
    (n : ℕ) (hash extension : Text)
    → All (λ c. is_hex c ≡ true) hash
    → n ≤ length hash
    → is_extension extension ≡ true
    → ends_hashed n (hash ++ extension) ≡ true
unfolding ends_hashed
Hashed-hash zero [] [] digits enough known = absurd (ground (arith, known))
Hashed-hash zero [] (c ∷ cs) digits enough known = ground (arith, known)
Hashed-hash (suc n) [] extension digits enough known = absurd (omega arith)
Hashed-hash zero (c ∷ cs) extension (is, digits) enough known =
    ground (arith, is, Hashed-hash zero cs extension digits (omega arith) known)
Hashed-hash (suc n) (c ∷ cs) extension (is, digits) enough known =
    ground (arith, is, Hashed-hash n cs extension digits (omega arith) known)

-- Some text, a dot, and what `Hashed` says.
pub record Matches (path : Text) : Type 0 where
  pub front : Text
  pub back : Text
  pub splits : path ≡ front ++ (b'.' ∷ back)
  pub hashed : Hashed 8 back

or_later : (a b : Bool) → (a || b) ≡ true → a ≡ false → b ≡ true
or_later a b h other = ground (arith, h, other)

both : (c d : ℕ) (b : Bool) → (c == d && b) ≡ true → (c ≡ d) × (b ≡ true)
both c d b h = (ground (arith, h), ground (arith, h))

immutable_files-Matches : (path : Text) → immutable_files path ≡ true → Matches path
unfolding immutable_files
immutable_files-Matches [] h = absurd (ground (arith, h))
immutable_files-Matches (c ∷ cs) h = elim (Bool-cases (c == b'.' && ends_hashed 8 cs)) [
  | inl here ↦ record {
    front = [];
    back = cs;
    splits = ap (λ d. d ∷ cs) (both c b'.' (ends_hashed 8 cs) here).0;
    hashed = ends_hashed-Hashed 8 cs (both c b'.' (ends_hashed 8 cs) here).1;
  }
  | inr later ↦
      let rest =
        immutable_files-Matches cs
          (or_later (c == b'.' && ends_hashed 8 cs) (immutable_files cs) h later) in
      record {
        front = c ∷ rest.front;
        back = rest.back;
        splits = ap (λ l. c ∷ l) rest.splits;
        hashed = rest.hashed;
      }
]

immutable_files-append :
    (front back : Text)
    → ends_hashed 8 back ≡ true
    → immutable_files (front ++ (b'.' ∷ back)) ≡ true
unfolding immutable_files
immutable_files-append [] back h = rw h refl
immutable_files-append (c ∷ front) back h = ground (arith, immutable_files-append front back h)

Matches-immutable_files : (path : Text) → Matches path → immutable_files path ≡ true
Matches-immutable_files path m =
    let h = m.hashed in
    let e : ends_hashed 8 m.back ≡ true =
      rw (h.splits, Hashed-hash 8 h.hash h.extension h.digits h.enough h.known) in
    rw (m.splits, immutable_files-append m.front m.back e)

header-middleware :
    (h : Dict Text)
    → (get cache_control (middleware h) ≡ some asked_again)
      × (get content_type_options (middleware h) ≡ some (codes "nosniff"))
unfolding middleware
header-middleware h =
    let others : Dict Text = put cache_control asked_again h in
    let more : Dict Text = put referrer_policy (codes "no-referrer") others in
    (
      get-put content_type_options cache_control (codes "nosniff") more
          ∙ (get-put referrer_policy cache_control (codes "no-referrer") others
              ∙ get-put cache_control cache_control asked_again h),
      get-put content_type_options content_type_options (codes "nosniff") more,
    )

header-cache_immutable :
    (path : Text) (h : Dict Text)
    → (get cache_control (cache_immutable path h)
        ≡ (if immutable_files path then some kept_for_long else get cache_control h))
      × (get content_type_options (cache_immutable path h) ≡ get content_type_options h)
unfolding cache_immutable
header-cache_immutable path h = elim (Bool-cases (immutable_files path)) [
  | inl is ↦ rw is (
    get-put cache_control cache_control kept_for_long h,
    get-put cache_control content_type_options kept_for_long h,
  )
  | inr isnt ↦ rw isnt (refl, refl)
]

apart : (n : ℕ) → n ≡ b'p' → n ≢ b'm'
apart n p m = omega arith

first_code : Option Text → ℕ
first_code none = 0
first_code (some []) = 0
first_code (some (c ∷ cs)) = c

differ : (o : Option Text) → o ≡ some asked_again → o ≢ some kept_for_long
unfolding first_code
differ o e f = apart (first_code o) (ap first_code e) (ap first_code f)

-- What `cached_iff` says of an answer.
Cached : Text → Target × Dict Text → Type 0
Cached path answer =
    ((get cache_control answer.1 ≡ some kept_for_long) ↔ ((answer.0 ≡ ui path) × Matches path))
    × ((get cache_control answer.1 ≡ some kept_for_long)
        ⊎ (get cache_control answer.1 ≡ some asked_again))
    × (get content_type_options answer.1 ≡ some (codes "nosniff"))

plain-Cached : (path : Text) (t : Target) → t ≢ ui path → Cached path (t, middleware [])
unfolding Cached
plain-Cached path t other =
    let (again, sniff) = header-middleware [] in
    (
      (λ e. absurd (differ (get cache_control (middleware [])) again e), λ e. absurd (other e.0)),
      inr again,
      sniff,
    )

file-Cached : (path : Text) → Cached path (ui path, cache_immutable path (middleware []))
unfolding Cached
file-Cached path =
    let (again, sniff) = header-middleware [] in
    let (control, options) = header-cache_immutable path (middleware []) in
    elim (Bool-cases (immutable_files path)) [
      | inl is ↦
          let k : get cache_control (cache_immutable path (middleware [])) ≡ some kept_for_long =
            control
            ∙ ap (λ b. if b then some kept_for_long else get cache_control (middleware [])) is in
          ((λ e. (refl, immutable_files-Matches path is), λ e. k), inl k, options ∙ sniff)
      | inr isnt ↦
          let k : get cache_control (cache_immutable path (middleware [])) ≡ some asked_again =
            control
            ∙ (ap (λ b. if b then some kept_for_long else get cache_control (middleware [])) isnt
                ∙ again) in
          (
            (
              λ e. absurd (differ (get cache_control (cache_immutable path (middleware []))) k e),
              λ e. let m = Matches-immutable_files path e.1 in absurd (ground (arith, m, isnt)),
            ),
            inr k,
            options ∙ sniff,
          )
    ]

routed-Cached : (path : Text) → Cached path (ui_routed path)
unfolding ui_routed
routed-Cached path = elim (Bool-cases (is_page path)) [
  | inl page ↦ rw page (plain-Cached path index (λ e. cc))
  | inr other ↦ elim (Bool-cases (is_avatar path)) [
    | inl avatar ↦ rw (other, avatar) (plain-Cached path (cdn path) (λ e. cc))
    | inr file ↦ rw (other, file) (file-Cached path)
  ]
]

answered-Cached :
    (path : Text) (b : Bool) (a : Target × Dict Text)
    → (if b then none else some (ui_routed path)) ≡ some a
    → Cached path a
answered-Cached path true a e = absurd (ground (arith, e))
answered-Cached path false a e =
    let same : ui_routed path ≡ a = cc in subst (Cached path) same (routed-Cached path)

-- For a path that is clean and that no route of web/server.go takes, the headers that middleware and
-- uiRoutes set let a browser keep the answer for a month without asking exactly if the path has gone
-- to the web client's own files and ends in a dot, eight or more hexadecimal digits, and .css or
-- .js; the pages, the avatars and every other file are asked for again. No answer lets the browser
-- guess at its type.
pub cached_iff :
    (clean_path : Text → Text) (path : Text) (a : Target × Dict Text)
    → ui_answer clean_path path ≡ some a
    → ((get cache_control a.1 ≡ some kept_for_long) ↔ ((a.0 ≡ ui path) × Matches path))
      × ((get cache_control a.1 ≡ some kept_for_long) ⊎ (get cache_control a.1 ≡ some asked_again))
      × (get content_type_options a.1 ≡ some (codes "nosniff"))
unfolding ui_answer Cached
cached_iff clean_path path a e =
    answered-Cached path (not (text_eq (clean_path path) path) || is_routed path) a e
