-- ===== src/Start/Checks.antt =====
-- What the program needs to start, and in what order it asks.
use gunk.Base.{
  ◌≡◌, refl, ap, ◌∙◌, sym, Bool, true, false, not, ◌||◌, Option, none, some, List, [], ◌∷◌, ◌++◌,
  if◌then◌else◌, Text, codes, text_eq, is_some,
}
use gunk.Start.{
  Url, World, Hook, no_hook, Config, Fatal, base_url_is_bad, cookie_secret_unset, setting_webhook,
  live_url_is_bad, making_work_dir, connecting, metrics, rtsp, ftl, ui_unset, ui_is_bad, Started,
  runs, stops, is_empty, hook_of, live_of, makes_work_dir, serves_metrics, rtsp_listens,
  ftl_listens, config_of, with_live, with_hook, with_url, with_base, trim_slash, set_webhook, main,
}

abbrev pub fatal_of : Started → Option Fatal
fatal_of (runs _) = none
fatal_of (stops f) = some f

abbrev pub first_unmet : List (Bool × Fatal) → Option Fatal
first_unmet [] = none
first_unmet ((met, f) ∷ rest) = let later = first_unmet rest in if met then later else some f

abbrev pub parses : World → Text → Bool
parses w t = is_some (w.parse_url t)

-- The requirements, in the order in which they are asked for. A variable that may be unset is empty
-- then.
abbrev pub requirements : World → List (Bool × Fatal)
requirements w =
    (parses w (trim_slash (w.getenv (codes "BASE_URL"))), base_url_is_bad)
    ∷ (not (is_empty (w.getenv (codes "COOKIE_SECRET"))), cookie_secret_unset)
    ∷ (
      is_empty (w.getenv (codes "WEBHOOK")) || is_some (set_webhook w (w.getenv (codes "WEBHOOK"))),
      setting_webhook,
    )
    ∷ (
      is_empty (w.getenv (codes "LIVE_URL")) || parses w (w.getenv (codes "LIVE_URL")),
      live_url_is_bad,
    )
    ∷ (
      is_empty (w.getenv (codes "WORK_DIR")) || w.makes_dirs (w.getenv (codes "WORK_DIR")),
      making_work_dir,
    )
    ∷ (w.connects, connecting)
    ∷ (is_empty (w.getenv (codes "METRICS")) || w.tcp (w.getenv (codes "METRICS")), metrics)
    ∷ (rtsp_listens w (w.getenv (codes "LISTEN_RTSP")), rtsp)
    ∷ (ftl_listens w (w.getenv (codes "LISTEN_FTL")), ftl)
    ∷ (not (is_empty (w.getenv (codes "UI"))), ui_unset)
    ∷ (parses w (w.getenv (codes "UI")), ui_is_bad)
    ∷ []

abbrev last_checks : World → List (Bool × Fatal)
last_checks w =
    (makes_work_dir w, making_work_dir)
    ∷ (w.connects, connecting)
    ∷ (serves_metrics w, metrics)
    ∷ (rtsp_listens w (w.getenv (codes "LISTEN_RTSP")), rtsp)
    ∷ (ftl_listens w (w.getenv (codes "LISTEN_FTL")), ftl)
    ∷ (not (is_empty (w.getenv (codes "UI"))), ui_unset)
    ∷ (parses w (w.getenv (codes "UI")), ui_is_bad)
    ∷ []

fatal-with_live : (w : World) (c : Config) → fatal_of (with_live w c) ≡ first_unmet (last_checks w)
fatal-with_live w c =
    go (makes_work_dir w) w.connects (serves_metrics w)
      (rtsp_listens w (w.getenv (codes "LISTEN_RTSP")))
      (ftl_listens w (w.getenv (codes "LISTEN_FTL"))) (is_empty (w.getenv (codes "UI")))
      (parses w (w.getenv (codes "UI")))
  where
    go :
        (a b d e f g h : Bool)
        → fatal_of (
            if not a
            then stops making_work_dir
            else if not b
            then stops connecting
            else if not d
            then stops metrics
            else if not e
            then stops rtsp
            else if not f
            then stops ftl
            else (if g then stops ui_unset else if h then runs c else stops ui_is_bad))
          ≡ first_unmet (
              (a, making_work_dir)
              ∷ (b, connecting)
              ∷ (d, metrics)
              ∷ (e, rtsp)
              ∷ (f, ftl)
              ∷ (not g, ui_unset)
              ∷ (h, ui_is_bad)
              ∷ [])
    go false b d e f g h = refl
    go true false d e f g h = refl
    go true true false e f g h = refl
    go true true true false f g h = refl
    go true true true true false g h = refl
    go true true true true true true h = refl
    go true true true true true false true = refl
    go true true true true true false false = refl

fatal-with_url :
    (w : World) (base : Text) (u : Url) (hook : Hook) (o : Option Url)
    → fatal_of (with_url w base u hook o)
      ≡ first_unmet ((is_some o, live_url_is_bad) ∷ last_checks w)
fatal-with_url w base u hook none = refl
fatal-with_url w base u hook (some live) = fatal-with_live w (config_of w base u hook live)

fatal-with_hook :
    (w : World) (base : Text) (u : Url) (o : Option Hook)
    → fatal_of (with_hook w base u o)
      ≡ first_unmet
          ((is_some o, setting_webhook) ∷ (is_some (live_of w u), live_url_is_bad) ∷ last_checks w)
fatal-with_hook w base u none = refl
fatal-with_hook w base u (some hook) = fatal-with_url w base u hook (live_of w u)

is_some-if :
    {A : Type 0} (b : Bool) (x : A) (o : Option A)
    → is_some (if b then some x else o) ≡ (b || is_some o)
is_some-if true x o = refl
is_some-if false x o = refl

is_some-hook_of :
    (w : World)
    → is_some (hook_of w) ≡ (
        is_empty (w.getenv (codes "WEBHOOK"))
        || is_some (set_webhook w (w.getenv (codes "WEBHOOK"))))
is_some-hook_of w =
    is_some-if (is_empty (w.getenv (codes "WEBHOOK"))) no_hook
      (set_webhook w (w.getenv (codes "WEBHOOK")))

is_some-live_of :
    (w : World) (u : Url)
    → is_some (live_of w u)
      ≡ (is_empty (w.getenv (codes "LIVE_URL")) || parses w (w.getenv (codes "LIVE_URL")))
is_some-live_of w u =
    is_some-if (is_empty (w.getenv (codes "LIVE_URL"))) u
      (w.parse_url (w.getenv (codes "LIVE_URL")))

-- What is asked for behind BASE_URL and COOKIE_SECRET.
abbrev middle_checks : World → List (Bool × Fatal)
middle_checks w =
    (
      is_empty (w.getenv (codes "WEBHOOK")) || is_some (set_webhook w (w.getenv (codes "WEBHOOK"))),
      setting_webhook,
    )
    ∷ (
      is_empty (w.getenv (codes "LIVE_URL")) || parses w (w.getenv (codes "LIVE_URL")),
      live_url_is_bad,
    )
    ∷ last_checks w

fatal-hooked :
    (w : World) (base : Text) (u : Url)
    → fatal_of (with_hook w base u (hook_of w)) ≡ first_unmet (middle_checks w)
fatal-hooked w base u =
    fatal-with_hook w base u (hook_of w)
    ∙ (ap
          (λ b.
            first_unmet
              ((b, setting_webhook) ∷ (is_some (live_of w u), live_url_is_bad) ∷ last_checks w))
          (is_some-hook_of w)
        ∙ ap
            (λ b. first_unmet (
              (
                is_empty (w.getenv (codes "WEBHOOK"))
                    || is_some (set_webhook w (w.getenv (codes "WEBHOOK"))),
                setting_webhook,
              )
              ∷ (b, live_url_is_bad)
              ∷ last_checks w))
            (is_some-live_of w u))

fatal-if :
    (b : Bool) (s : Started) (o : Option Fatal)
    → fatal_of s ≡ o
    → fatal_of (if b then stops cookie_secret_unset else s)
      ≡ (if not b then o else some cookie_secret_unset)
fatal-if true s o e = refl
fatal-if false s o e = e

fatal-with_base :
    (w : World) (base : Text) (o : Option Url)
    → fatal_of (with_base w base o)
      ≡ first_unmet (
          (is_some o, base_url_is_bad)
          ∷ (not (is_empty (w.getenv (codes "COOKIE_SECRET"))), cookie_secret_unset)
          ∷ middle_checks w)
fatal-with_base w base none = refl
fatal-with_base w base (some u) =
    fatal-if (is_empty (w.getenv (codes "COOKIE_SECRET"))) (with_hook w base u (hook_of w))
      (first_unmet (middle_checks w)) (fatal-hooked w base u)

-- The program gets through main up to its eg.Wait, and through the set-up of its routes, exactly if
-- what `requirements` lists holds: of BASE_URL, COOKIE_SECRET, WEBHOOK, LIVE_URL, WORK_DIR, the
-- database, METRICS, the RTSP and FTL sockets and UI, in this order; otherwise the program stops with the message of the first one that does not.
pub fatal-main : (w : World) → fatal_of (main w) ≡ first_unmet (requirements w)
unfolding main
fatal-main w =
    fatal-with_base w (trim_slash (w.getenv (codes "BASE_URL")))
      (w.parse_url (trim_slash (w.getenv (codes "BASE_URL"))))

trim_slash-append : (t : Text) → trim_slash (t ++ b'/' ∷ []) ≡ t
unfolding trim_slash
trim_slash-append [] = refl
trim_slash-append (c ∷ []) = refl
trim_slash-append (c ∷ d ∷ cs) = ap (λ l. c ∷ l) (trim_slash-append (d ∷ cs))

-- A world whose BASE_URL is a text.
abbrev pub at_base : World → Text → World
at_base w t = record w { getenv = λ k. if text_eq k (codes "BASE_URL") then t else w.getenv k }

module _ (w : World) (s t base : Text) (u : Url) where
  with_url-at_base :
      (hook : Hook) (o : Option Url)
      → with_url (at_base w s) base u hook o ≡ with_url (at_base w t) base u hook o
  with_url-at_base hook none = refl
  with_url-at_base hook (some live) = refl

  with_hook-at_base :
      (o : Option Hook) → with_hook (at_base w s) base u o ≡ with_hook (at_base w t) base u o
  with_hook-at_base none = refl
  with_hook-at_base (some hook) = with_url-at_base hook (live_of (at_base w t) u)

  hook_of-at_base : hook_of (at_base w s) ≡ hook_of (at_base w t)
  unfolding set_webhook
  hook_of-at_base = refl

with_base-at_base :
    (w : World) (s t base : Text) (o : Option Url)
    → with_base (at_base w s) base o ≡ with_base (at_base w t) base o
with_base-at_base w s t base none = refl
with_base-at_base w s t base (some u) =
    ap
      (λ h.
        if is_empty (w.getenv (codes "COOKIE_SECRET"))
        then stops cookie_secret_unset
        else with_hook (at_base w s) base u h)
      (hook_of-at_base w s t base u)
    ∙ ap (λ g. if is_empty (w.getenv (codes "COOKIE_SECRET")) then stops cookie_secret_unset else g)
        (with_hook-at_base w s t base u (hook_of (at_base w t)))

-- A slash at the end of BASE_URL changes nothing.
pub main-slash :
    (w : World) (t : Text)
    → trim_slash t ≡ t
    → main (at_base w (t ++ b'/' ∷ [])) ≡ main (at_base w t)
unfolding main
main-slash w t plain =
    with_base-at_base w (t ++ b'/' ∷ []) t (trim_slash (t ++ b'/' ∷ []))
      (w.parse_url (trim_slash (t ++ b'/' ∷ [])))
    ∙ ap (λ b. with_base (at_base w t) b (w.parse_url b)) (trim_slash-append t ∙ sym plain)
