-- ===== src/Web/Routes.antt =====
-- web/server.go, Handler: the paths that the server's own routes take, whatever the method, beside
-- those of uiRoutes. A path is compared with the templates of gorilla/mux element by element; a
-- variable stands for one character or more of an element.
use gunk.Base.{Bool, true, false, ◌&&◌, ◌||◌, List, [], ◌∷◌, ◌==◌, ℕ, Text, codes, text_eq}

-- An element of a template: a fixed one, or a variable in front of a fixed end.
pub data Part : Type 0 where
  fixed : Text → Part
  variable : Text → Part

-- The elements of a path, which stand between its slashes.
abbrev put_before : Bool → ℕ → List Text → List Text
put_before true c es = [] ∷ es
put_before false c [] = (c ∷ []) ∷ []
put_before false c (e ∷ es) = (c ∷ e) ∷ es

unfoldable pub elements : Text → List Text
elements [] = [] ∷ []
elements (c ∷ cs) = put_before (c == b'/') c (elements cs)

-- Something, and then the end.
abbrev pub ends_in : Text → Text → Bool
ends_in end [] = false
ends_in end (c ∷ cs) = text_eq cs end || ends_in end cs

abbrev pub fits : Part → Text → Bool
fits (fixed t) e = text_eq e t
fits (variable end) e = ends_in end e

abbrev pub fits_all : List Part → List Text → Bool
fits_all [] [] = true
fits_all [] (e ∷ es) = false
fits_all (p ∷ ps) [] = false
fits_all (p ∷ ps) (e ∷ es) = fits p e && fits_all ps es

-- The templates, behind the first slash.
abbrev pub routes : List (List Part)
routes =
    (fixed (codes "ws") ∷ [])
    ∷ (fixed (codes "live") ∷ variable (codes ".ts") ∷ [])
    ∷ (fixed (codes "hls") ∷ variable [] ∷ variable [] ∷ [])
    ∷ (fixed (codes "sdp") ∷ variable [] ∷ [])
    ∷ (fixed (codes "channels.json") ∷ [])
    ∷ (fixed (codes "thumbs") ∷ variable [] ∷ variable (codes ".jpg") ∷ [])
    ∷ (fixed (codes "oauth2") ∷ fixed (codes "user") ∷ [])
    ∷ (fixed (codes "oauth2") ∷ fixed (codes "initiate") ∷ [])
    ∷ (fixed (codes "oauth2") ∷ fixed (codes "cb") ∷ [])
    ∷ (fixed (codes "oauth2") ∷ fixed (codes "logout") ∷ [])
    ∷ (fixed (codes "api") ∷ fixed (codes "mychannels") ∷ [])
    ∷ (fixed (codes "api") ∷ fixed (codes "mychannels") ∷ variable [] ∷ [])
    ∷ []

abbrev pub fits_any : List (List Part) → List Text → Bool
fits_any [] es = false
fits_any (r ∷ rs) es = fits_all (fixed [] ∷ r) es || fits_any rs es

unfoldable pub is_routed : Text → Bool
unfolding elements
is_routed path = fits_any routes (elements path)
