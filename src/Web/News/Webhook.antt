-- ===== src/Web/News/Webhook.antt =====
-- When a message is posted, and what it says.
use gunk.Base.{
  ◌≡◌, ◌≢◌, ◌∙◌, ◌↔◌, ◌⊎◌, inl, inr, refl, sym, ap, Bool, true, false, not, ◌||◌, Option, none,
  some, List, [], if◌then◌else◌, Text, text_eq, text_eq_iff, arith, Bool-cases,
}
use gunk.Model.{ChannelAuth, Token}
use gunk.Web.Login.{Site, Discord, lookup_user, with_guilds}
use gunk.Web.News.{
  Addresses, is_usable, Post, not_made, not_answered, answered, message, display_name, posting,
  do_webhook,
}

-- Discord is asked for the user's name if the owner's token can be used, and gives no name
-- otherwise.
abbrev pub Named : Site → (Token → Bool) → Discord Token → ChannelAuth → Text → Type 0
Named s is_valid d auth name =
    ((is_usable is_valid auth.token ≡ true) × (name ≡ d.user.username))
    ⊎ ((is_usable is_valid auth.token ≡ false) × (name ≡ auth.name))

username-lookup_user : (s : Site) (d : Discord Token) → (lookup_user s d).user ≡ d.user
unfolding lookup_user
username-lookup_user s d = elim (Bool-cases d.user_ok) [
  | inr fails ↦ rw fails refl
  | inl fine ↦ rw fine (go d.guilds d.new_token)
]
  where
    go : (g : Option (List Text)) (t : Option Token) → (with_guilds s d g t).user ≡ d.user
    go none t = refl
    go (some g) none = refl
    go (some g) (some t) = refl

Named-display_name :
    (s : Site) (is_valid : Token → Bool) (d : Discord Token) (auth : ChannelAuth) (name : Text)
    → Named s is_valid d auth name ↔ (name ≡ display_name s is_valid d auth)
Named-display_name s is_valid d auth name =
    let same = ap (λ u. u.username) (username-lookup_user s d) in
    elim (Bool-cases (is_usable is_valid auth.token)) [
      | inl usable ↦
          (λ n. ground (arith, n, usable, same), λ e. inl (usable, ground (arith, e, usable, same)))
      | inr not_usable ↦ (
        λ n. ground (arith, n, not_usable, same),
        λ e. inr (not_usable, ground (arith, e, not_usable, same)),
      )
    ]

posted-posting :
    (c content : Text) (post : Post)
    → ((posting c post).posted ≡ some content) ↔ ((post ≢ not_made) × (content ≡ c))
posted-posting c content not_made = (λ h. absurd (ground (arith, h)), λ h. absurd (h.0 refl))
posted-posting c content not_answered =
    (λ h. (λ e. ground (arith, e), ground (arith, h)), λ h. ap some (sym h.1))
posted-posting c content (answered status) =
    (λ h. (λ e. ground (arith, e), ground (arith, h)), λ h. ap some (sym h.1))

-- A message is posted exactly when a webhook is set, the channel is to be announced and the request
-- can be made, and it names the channel's address with the name that Discord answers for the owner,
-- if there is a usable token, even where the lookup has failed, and the channel's own name
-- otherwise.
pub do_webhook_exact :
    (s : Site) (a : Addresses) (is_valid : Token → Bool) (d : Discord Token) (post : Post)
    (auth : ChannelAuth) (content : Text)
    → ((do_webhook s a is_valid d post auth).posted ≡ some content) ↔ (
        (a.webhook_url ≢ [])
        × (auth.announce ≡ true)
        × (post ≢ not_made)
        × (name : Text) × Named s is_valid d auth name
        × (content ≡ message a name auth.name))
unfolding do_webhook
do_webhook_exact s a is_valid d post auth content =
    let shown = display_name s is_valid d auth in
    let (forth, back) = posted-posting (message a shown auth.name) content post in
    elim (Bool-cases (text_eq a.webhook_url [] || not auth.announce)) [
      | inl off ↦ (
        λ h. absurd (ground (arith, h, off)),
        λ h. absurd (ground (arith, off, h.1, (text_eq_iff a.webhook_url []).0, h.0)),
      )
      | inr on ↦ (
        λ h.
            let (made, is) = forth (
              ap
                (λ b.
                  (if b
                    then record { posted = none; ok = true }
                    else posting (message a shown auth.name) post).posted)
                (sym on)
              ∙ h) in
            (
              λ e. ground (arith, on, (text_eq_iff a.webhook_url []).1 e),
              ground (arith, on),
              made,
              shown,
              (Named-display_name s is_valid d auth shown).1 refl,
              is,
            ),
        λ h. rw on (
            back (
              h.2,
              h.5
                  ∙ ap (λ n. message a n auth.name)
                      ((Named-display_name s is_valid d auth h.3).0 h.4),
            )),
      )
    ]
