-- ===== src/Web/Files.antt =====
-- web/ui.go: the files of the web client, and for how long a browser may keep them. What mux makes
-- of a path that no route of web/server.go takes is written out: the three pages, the avatars, and the
-- rest for the file handler. mux's cleaning of a path is an argument.
pub mod Immutable
use gunk.Base.{
  ℕ, zero, suc, Bool, true, false, ◌&&◌, ◌||◌, not, Option, none, some, List, [], ◌∷◌, leb, ◌==◌,
  if◌then◌else◌, Text, codes, text_eq,
}
use gunk.Base.Dict.{Dict, put}
use gunk.Web.Routes.{is_routed}

abbrev pub is_hex : ℕ → Bool
is_hex c = (leb b'0' c && leb c b'9') || ((leb b'a' c && leb c b'f') || (leb b'A' c && leb c b'F'))

-- `\.(css|js)$`
abbrev pub is_extension : Text → Bool
is_extension t = text_eq t (codes ".css") || text_eq t (codes ".js")

-- `[0-9a-fA-F]{n,}\.(css|js)$`, at the start of a text.
unfoldable pub ends_hashed : ℕ → Text → Bool
ends_hashed zero [] = false
ends_hashed (suc n) [] = false
ends_hashed zero (c ∷ cs) = is_extension (c ∷ cs) || (is_hex c && ends_hashed zero cs)
ends_hashed (suc n) (c ∷ cs) = is_hex c && ends_hashed n cs

-- immutableFiles.MatchString: the expression matches from some place on.
unfoldable pub immutable_files : Text → Bool
unfolding ends_hashed
immutable_files [] = false
immutable_files (c ∷ cs) = (c == b'.' && ends_hashed 8 cs) || immutable_files cs

abbrev pub cache_control : Text
cache_control = codes "Cache-Control"

abbrev pub referrer_policy : Text
referrer_policy = codes "Referrer-Policy"

abbrev pub content_type_options : Text
content_type_options = codes "X-Content-Type-Options"

abbrev pub asked_again : Text
asked_again = codes "private, no-cache, must-revalidate"

abbrev pub kept_for_long : Text
kept_for_long = codes "max-age=2592000, public, immutable"

-- middleware: the headers of every answer.
unfoldable pub middleware : Dict Text → Dict Text
unfolding put
middleware h =
    put content_type_options (codes "nosniff")
      (put referrer_policy (codes "no-referrer") (put cache_control asked_again h))

-- cacheImmutable
unfoldable pub cache_immutable : Text → Dict Text → Dict Text
unfolding immutable_files put
cache_immutable path h =
    let kept = put cache_control kept_for_long h in if immutable_files path then kept else h

-- "/watch/{channel}": one element, which is not empty.
abbrev pub one_element : Text → Bool
one_element [] = true
one_element (c ∷ cs) = let rest = one_element cs in if c == b'/' then false else rest

abbrev pub after_watch : Text → Text → Bool
after_watch [] [] = false
after_watch [] (c ∷ cs) = one_element (c ∷ cs)
after_watch (p ∷ ps) [] = false
after_watch (p ∷ ps) (c ∷ cs) = let rest = after_watch ps cs in if p == c then rest else false

-- The routes of indexHandler.
abbrev pub is_page : Text → Bool
is_page path =
    text_eq path (codes "/")
    || (text_eq path (codes "/mychannels") || after_watch (codes "/watch/") path)

-- PathPrefix("/avatars")
abbrev pub starts_with : Text → Text → Bool
starts_with [] t = true
starts_with (p ∷ ps) [] = false
starts_with (p ∷ ps) (c ∷ cs) = let rest = starts_with ps cs in if p == c then rest else false

abbrev pub is_avatar : Text → Bool
is_avatar path = starts_with (codes "/avatars") path

-- Who answers: the web client's page, the avatars' server, or the web client's files.
pub data Target : Type 0 where
  index : Target
  cdn : Text → Target
  ui : Text → Target

-- uiRoutes: who answers, and the headers that are set.
unfoldable pub ui_routed : Text → Target × Dict Text
unfolding middleware cache_immutable
ui_routed path =
    let page : Target × Dict Text = (index, middleware []) in
    let avatar : Target × Dict Text = (cdn path, middleware []) in
    let file : Target × Dict Text = (ui path, cache_immutable path (middleware [])) in
    if is_page path then page else if is_avatar path then avatar else file

-- What uiRoutes answers of all requests: mux redirects a path that is not clean, and the routes of
-- the server's own take theirs.
unfoldable pub ui_answer : (Text → Text) → Text → Option (Target × Dict Text)
unfolding ui_routed is_routed
ui_answer clean_path path =
    let answer : Option (Target × Dict Text) = some (ui_routed path) in
    if not (text_eq (clean_path path) path) || is_routed path then none else answer
