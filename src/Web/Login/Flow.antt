-- ===== src/Web/Login/Flow.antt =====
-- What it takes to be logged in, and what a login is good for.
use gunk.Base.{
  ◌≡◌, ◌≢◌, ◌∙◌, refl, sym, ap, inl, inr, true, false, Option, none, some, List, [], ◌∷◌, ◌++◌,
  Text, text_eq, text_eq_iff, text_eq_refl, text_eq_ne, length, arith, Option-cases, Bool-cases,
}
use gunk.Base.Int.{negsuc}
use gunk.Base.Dict.{Dict, get}
use gunk.Web.Cookies.{
  Cookie, state_cookie, login_cookie, cookie_of, clear_cookie, set_cookie, Unsealed, unsealed,
  rejected, panics, unseal,
}
use gunk.Web.Cookies.Sealed.{IsSealing, IsJson, unseal-set_cookie}
use gunk.Web.Login.{
  DiscordUser, Site, to_discord, to_home, Answer, listed, view_oauth_login, state_cookie_expires,
  login_cookie_expires, Exchanged, got, refused, crashes, CallbackRequest, Discord, with_state,
  token_exchange, lookup_user, with_user, with_token, view_oauth_cb, user, auth_of, check_auth,
}

-- The answer that sends a browser to Discord.
abbrev pub only_to : Text → List Cookie → Answer DiscordUser
only_to state cookies = record { reply = to_discord state; cookies = cookies }

same_answer :
    (o : Option Cookie) (st state : Text) (c : Cookie)
    → only_to st (listed o) ≡ only_to state (c ∷ [])
    → (st ≡ state) × (o ≡ some c)
same_answer none st state c h = absurd (ground (arith, h))
same_answer (some b) st state c h = (ground (arith, h), ground (arith, h))

view_oauth_login-begins :
    (s : Site) (sb nonce state : Text) (c : Cookie)
    → view_oauth_login s sb nonce ≡ only_to state (c ∷ [])
    → (text_eq s.client_id [] ≡ false)
      × (s.crypto.encode sb ≡ state)
      × (set_cookie s.crypto s.is_secure s.state_json nonce state_cookie
            (s.crypto.encode sb)
            state_cookie_expires
          ≡ some c)
unfolding view_oauth_login
view_oauth_login-begins s sb nonce state c h = elim (Bool-cases (text_eq s.client_id [])) [
  | inl none_set ↦ absurd (ground (arith, h, none_set))
  | inr there ↦
      let cookie =
        set_cookie s.crypto s.is_secure s.state_json nonce state_cookie (s.crypto.encode sb)
          state_cookie_expires in
      let (encoded, made) =
        same_answer cookie (s.crypto.encode sb) state c (ground (arith, h, there)) in
      (there, encoded, made)
]

get-first : (k v : Text) (others : Dict Text) → get k ((k, v) ∷ others) ≡ some v
unfolding get
get-first k v others = rw (text_eq_refl k) refl

module _ {ℓ} {Token : Type ℓ} where
  -- The state that the request's own cookie holds is the one in its query, and Discord gives a
  -- token for its code.
  pub record IsOwn (s : Site) (r : CallbackRequest) (exchange : Text → Option Token) (t : Token)
      : Type ℓ where
    pub has_code : r.code ≢ []
    pub own_state :
        unseal s.crypto s.is_secure s.state_json r.cookies state_cookie ≡ unsealed r.state
    pub exchanged : exchange r.code ≡ some t

  with_state-got :
      (s : Site) (r : CallbackRequest) (exchange : Text → Option Token) (u : Unsealed Text)
      (t : Token)
      → (with_state s r exchange u).result ≡ got t
      → (u ≡ unsealed r.state) × (exchange r.code ≡ some t)
  with_state-got s r exchange panics t h = absurd (ground (arith, h))
  with_state-got s r exchange rejected t h = absurd (ground (arith, h))
  with_state-got s r exchange (unsealed state2) t h = elim (Bool-cases (text_eq state2 r.state)) [
    | inr other ↦ absurd (ground (arith, h, other))
    | inl same ↦ elim (Option-cases (exchange r.code)) [
      | inl fails ↦ absurd (ground (arith, h, same, fails))
      | inr (t2, is) ↦
          (ap (λ x. unsealed x) ((text_eq_iff state2 r.state).0 same), ground (arith, h, same, is))
    ]
  ]

  token_exchange-IsOwn :
      (s : Site) (r : CallbackRequest) (exchange : Text → Option Token) (t : Token)
      → (token_exchange s r exchange).result ≡ got t
      → IsOwn s r exchange t
  unfolding token_exchange
  token_exchange-IsOwn s r exchange t h = elim (Bool-cases (text_eq r.code [])) [
    | inl nothing ↦ absurd (ground (arith, h, nothing))
    | inr code ↦
        let (own, given) =
          with_state-got s r exchange
            (unseal s.crypto s.is_secure s.state_json r.cookies state_cookie) t
            (ground (arith, h, code)) in
        record {
          has_code = λ e. ground (arith, code, (text_eq_iff r.code []).1 e);
          own_state = own;
          exchanged = given;
        }
  ]

  -- A login: its cookie is sealed for the user that Discord gives for the token.
  pub record IsLogin (s : Site) (nonce : Text) (discord : Token → Discord Token) (t : Token)
      (a : Answer DiscordUser) : Type ℓ where
    pub known : (lookup_user s (discord t)).ok ≡ true
    pub login : Cookie
    pub made :
        set_cookie s.crypto s.is_secure s.user_json nonce login_cookie
          (lookup_user s (discord t)).user
          login_cookie_expires
        ≡ some login
    pub first : List Cookie
    pub last : a.cookies ≡ first ++ login ∷ []

  with_user-home :
      (s : Site) (nonce : Text) (discord : Token → Discord Token) (cookies : List Cookie)
      (t : Token)
      → (with_user s nonce cookies (lookup_user s (discord t))).reply ≡ to_home
      → IsLogin s nonce discord t (with_user s nonce cookies (lookup_user s (discord t)))
  with_user-home s nonce discord cookies t h = elim (Bool-cases (lookup_user s (discord t)).ok) [
    | inr unknown ↦ absurd (ground (arith, h, unknown))
    | inl known ↦
        elim (Option-cases (
          set_cookie s.crypto s.is_secure s.user_json nonce login_cookie
            (lookup_user s (discord t)).user login_cookie_expires)) [
              | inl fails ↦ absurd (ground (arith, h, known, fails))
              | inr (c, made) ↦ record {
                known = known;
                login = c;
                made = made;
                first = cookies;
                last = rw (known, made) refl;
              }
            ]
  ]

  -- Whoever comes back from Discord is logged in only with the state to which the cookie of that
  -- same browser unseals, with a code that Discord exchanges for a token, and as the user whom
  -- Discord names for that token.
  pub view_oauth_cb-IsOwn :
      (s : Site) (nonce : Text) (exchange : Text → Option Token) (discord : Token → Discord Token)
      (r : CallbackRequest)
      → (view_oauth_cb s nonce exchange discord r).reply ≡ to_home
      → (t : Token) × IsOwn s r exchange t
        × IsLogin s nonce discord t (view_oauth_cb s nonce exchange discord r)
  unfolding view_oauth_cb
  view_oauth_cb-IsOwn s nonce exchange discord r h = elim (Bool-cases (text_eq s.client_id [])) [
    | inl none_set ↦ absurd (ground (arith, h, none_set))
    | inr there ↦
        let ex = token_exchange s r exchange in
        rw there (go ex.cookies ex.result refl (ground (arith, h, there)))
  ]
    where
      go :
          (cookies : List Cookie) (x : Exchanged Token)
          → (token_exchange s r exchange).result ≡ x
          → (with_token s nonce discord cookies x).reply ≡ to_home
          → (t : Token) × IsOwn s r exchange t
            × IsLogin s nonce discord t (with_token s nonce discord cookies x)
      go cookies refused is home = absurd (ground (arith, home))
      go cookies crashes is home = absurd (ground (arith, home))
      go cookies (got t) is home =
          (t, token_exchange-IsOwn s r exchange t is, with_user-home s nonce discord cookies t home)

  -- A browser that is sent to Discord, and comes back with the state and the cookie that it was
  -- given and a code for which Discord gives a token and a user, is logged in: its state cookie
  -- is cleared, and every later request whose first cookie is the login cookie is taken to be
  -- from that user; if secretbox and base64 keep their promises, the nonces have 24 bytes, json
  -- writes the state and the user and reads back what it writes, and the token can be stored.
  pub login-check_auth :
      (s : Site) (sb nonce1 nonce2 state blob : Text) (c : Cookie) (exchange : Text → Option Token)
      (discord : Token → Discord Token) (r : CallbackRequest) (t : Token) (others : Dict Text)
      → IsSealing s.crypto
      → IsJson s.state_json (s.crypto.encode sb)
      → IsJson s.user_json (lookup_user s (discord t)).user
      → length nonce1 ≡ 24
      → length nonce2 ≡ 24
      → view_oauth_login s sb nonce1 ≡ only_to state (c ∷ [])
      → get c.name r.cookies ≡ some c.value
      → r.state ≡ state
      → r.code ≢ []
      → exchange r.code ≡ some t
      → (lookup_user s (discord t)).ok ≡ true
      → s.user_json.marshal (lookup_user s (discord t)).user ≡ some blob
      → (login : Cookie) × (view_oauth_cb s nonce2 exchange discord r ≡ record {
        reply = to_home;
        cookies = clear_cookie s.crypto s.is_secure state_cookie (negsuc 0) ∷ login ∷ [];
      })
        × (check_auth s ((login.name, login.value) ∷ others)
            ≡ user (lookup_user s (discord t)).user.id)
  unfolding view_oauth_cb token_exchange check_auth set_cookie
  login-check_auth s sb nonce1 nonce2 state blob c exchange discord r t others laws states users is1
        is2 begun brought back code exchanged known written =
      let (there, encoded, made) = view_oauth_login-begins s sb nonce1 state c begun in
      let own : unseal s.crypto s.is_secure s.state_json r.cookies state_cookie
          ≡ unsealed (s.crypto.encode sb) =
        unseal-set_cookie s.crypto s.is_secure s.state_json nonce1 state_cookie (s.crypto.encode sb)
          state_cookie_expires c r.cookies laws states is1 made brought in
      let same : text_eq (s.crypto.encode sb) r.state ≡ true =
        (text_eq_iff (s.crypto.encode sb) r.state).1 (encoded ∙ sym back) in
      let u = (lookup_user s (discord t)).user in
      let login =
        cookie_of s.is_secure login_cookie (s.crypto.encode (nonce2 ++ s.crypto.seal nonce2 blob))
          login_cookie_expires in
      let set : set_cookie s.crypto s.is_secure s.user_json nonce2 login_cookie u
            login_cookie_expires
          ≡ some login =
        rw (written, set_cookie) refl in
      (
        login,
        rw (there, text_eq_ne r.code [] code, own, same, exchanged, known, set) refl,
        ap auth_of (
            unseal-set_cookie s.crypto s.is_secure s.user_json nonce2 login_cookie u
              login_cookie_expires login ((login.name, login.value) ∷ others) laws users is2 set
              (get-first login.name login.value others)),
      )
