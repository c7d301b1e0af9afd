-- ===== src/Web/Cookies/Sealed.antt =====
-- What a sealed cookie is worth to the server.
use gunk.Base.{
  ◌<◌, ◌≡◌, ◌≢◌, ◌↔◌, inl, inr, refl, sym, ap, ◌∙◌, Bool, false, Option, none, some, [], ◌∷◌, ◌++◌,
  ltb, Text, length, take, drop, arith, Option-cases, Bool-cases, take-append_length,
  drop-append_length, length-append, length-take, take-drop,
}
use gunk.Base.Int.{ℤ}
use gunk.Base.Dict.{Dict, get}
use gunk.Web.Cookies.{
  Crypto, Json, Cookie, cookie_name, cookie_of, set_cookie, unsealed, panics, of_option, parse_blob,
  open_sealed, open_cookie, unseal,
}

-- What base64 and secretbox promise: what is encoded is decoded and not empty, what is sealed is
-- opened, and nothing is opened but what Seal makes of the same message.
pub record IsSealing (crypto : Crypto) : Type 0 where
  pub decodes : (b : Text) → crypto.decode (crypto.encode b) ≡ some b
  pub opens : (nonce m : Text) → crypto.open_box nonce (crypto.seal nonce m) ≡ some m
  pub authentic :
      (nonce box m : Text) → crypto.open_box nonce box ≡ some m → box ≡ crypto.seal nonce m
  pub not_empty : (b : Text) → 0 < length b → 0 < length (crypto.encode b)

-- json gives back what it has written.
unfoldable pub IsJson {ℓ} : {A : Type ℓ} → Json A → A → Type ℓ
IsJson json a = (blob : Text) → json.marshal a ≡ some blob → json.unmarshal blob ≡ some a

-- A cookie's value that the server can have made: the base64 form of a nonce and a sealed message.
pub record IsMade {ℓ} {A : Type ℓ} (crypto : Crypto) (json : Json A) (value : Text) (a : A)
    : Type ℓ where
  pub nonce : Text
  pub blob : Text
  pub is_nonce : length nonce ≡ 24
  pub not_empty : value ≢ []
  pub decoded : crypto.decode value ≡ some (nonce ++ crypto.seal nonce blob)
  pub parsed : json.unmarshal blob ≡ some a

module _ {ℓ} {A : Type ℓ} where
  open_sealed-append :
      (crypto : Crypto) (json : Json A) (nonce blob : Text)
      → length nonce ≡ 24
      → open_sealed crypto json (some (nonce ++ crypto.seal nonce blob))
        ≡ parse_blob json (crypto.open_box nonce (crypto.seal nonce blob))
  open_sealed-append crypto json nonce blob is_nonce =
      let long : ltb (length (nonce ++ crypto.seal nonce blob)) 24 ≡ false =
        let l = length-append nonce (crypto.seal nonce blob) in ground (arith, l, is_nonce) in
      let front : take 24 (nonce ++ crypto.seal nonce blob) ≡ nonce =
        ap (λ n. take n (nonce ++ crypto.seal nonce blob)) (sym is_nonce)
        ∙ take-append_length nonce (crypto.seal nonce blob) in
      let back : drop 24 (nonce ++ crypto.seal nonce blob) ≡ crypto.seal nonce blob =
        ap (λ n. drop n (nonce ++ crypto.seal nonce blob)) (sym is_nonce)
        ∙ drop-append_length nonce (crypto.seal nonce blob) in
      rw (long, front, back) refl

  open_cookie-value :
      (crypto : Crypto) (json : Json A) (value : Text)
      → 0 < length value
      → open_cookie crypto json (some value) ≡ open_sealed crypto json (crypto.decode value)
  open_cookie-value crypto json [] lt = absurd (omega arith)
  open_cookie-value crypto json (b ∷ bs) lt = refl

  set_cookie-some :
      (crypto : Crypto) (is_secure : Bool) (json : Json A) (nonce name : Text) (a : A) (max_age : ℤ)
      (c : Cookie)
      → set_cookie crypto is_secure json nonce name a max_age ≡ some c
      → (blob : Text) × (json.marshal a ≡ some blob)
        × (cookie_of is_secure name (crypto.encode (nonce ++ crypto.seal nonce blob)) max_age ≡ c)
  unfolding set_cookie
  set_cookie-some crypto is_secure json nonce name a max_age c set =
      elim (Option-cases (json.marshal a)) [
        | inl fails ↦ absurd (ground (arith, set, fails))
        | inr (blob, is) ↦ (blob, is, ground (arith, set, is))
      ]

  open-sealed :
      (crypto : Crypto) (json : Json A) (nonce blob : Text) (a : A)
      → IsSealing crypto
      → length nonce ≡ 24
      → json.unmarshal blob ≡ some a
      → open_cookie crypto json (some (crypto.encode (nonce ++ crypto.seal nonce blob)))
        ≡ unsealed a
  open-sealed crypto json nonce blob a laws is_nonce parsed =
      let l = length-append nonce (crypto.seal nonce blob) in
      open_cookie-value crypto json (crypto.encode (nonce ++ crypto.seal nonce blob))
        (laws.not_empty (nonce ++ crypto.seal nonce blob) (omega (arith, l, is_nonce)))
      ∙ ap (open_sealed crypto json) (laws.decodes (nonce ++ crypto.seal nonce blob))
      ∙ open_sealed-append crypto json nonce blob is_nonce
      ∙ ap (parse_blob json) (laws.opens nonce blob)
      ∙ ap of_option parsed

  -- A value that is set in a cookie, with a nonce of 24 bytes, is the value that is read from the
  -- request that brings the cookie back, if json can write it and read it back.
  pub unseal-set_cookie :
      (crypto : Crypto) (is_secure : Bool) (json : Json A) (nonce name : Text) (a : A) (max_age : ℤ)
      (c : Cookie) (cookies : Dict Text)
      → IsSealing crypto
      → IsJson json a
      → length nonce ≡ 24
      → set_cookie crypto is_secure json nonce name a max_age ≡ some c
      → get c.name cookies ≡ some c.value
      → unseal crypto is_secure json cookies name ≡ unsealed a
  unfolding unseal IsJson
  unseal-set_cookie crypto is_secure json nonce name a max_age c cookies laws reads is_nonce set
        sent =
      let (blob, is, made) = set_cookie-some crypto is_secure json nonce name a max_age c set in
      let there : get (cookie_name is_secure name) cookies
          ≡ some (crypto.encode (nonce ++ crypto.seal nonce blob)) =
        ap (λ k. get k.name cookies) made ∙ sent ∙ ap (λ k. some k.value) (sym made) in
      ap (open_cookie crypto json) there
      ∙ open-sealed crypto json nonce blob a laws is_nonce (reads blob is)

  parse_blob-unsealed :
      (json : Json A) (m : Option Text) (a : A)
      → parse_blob json m ≡ unsealed a
      → (blob : Text) × (m ≡ some blob) × (json.unmarshal blob ≡ some a)
  parse_blob-unsealed json none a h = absurd (ground (arith, h))
  parse_blob-unsealed json (some blob) a h = elim (Option-cases (json.unmarshal blob)) [
    | inl fails ↦ absurd (ground (arith, h, fails))
    | inr (b, is) ↦ (blob, refl, ground (arith, h, is))
  ]

  parse_blob-safe : (json : Json A) (m : Option Text) → parse_blob json m ≢ panics
  parse_blob-safe json none h = ground (arith, h)
  parse_blob-safe json (some blob) h = elim (Option-cases (json.unmarshal blob)) [
    | inl fails ↦ ground (arith, h, fails)
    | inr (b, is) ↦ ground (arith, h, is)
  ]

  open_cookie-IsMade :
      (crypto : Crypto) (json : Json A) (value : Text) (a : A)
      → IsSealing crypto
      → open_cookie crypto json (some value) ≡ unsealed a
      → IsMade crypto json value a
  open_cookie-IsMade crypto json [] a laws h = absurd (ground (arith, h))
  open_cookie-IsMade crypto json (b ∷ bs) a laws h = elim (Option-cases (crypto.decode (b ∷ bs))) [
    | inl fails ↦ absurd (ground (arith, h, fails))
    | inr (sealed, is) ↦ elim (Bool-cases (ltb (length sealed) 24)) [
      | inl short ↦ absurd (ground (arith, h, is, short))
      | inr long ↦
          let (blob, opened, parsed) =
            parse_blob-unsealed json (crypto.open_box (take 24 sealed) (drop 24 sealed)) a
              (ground (arith, h, is, long)) in
          record {
            nonce = take 24 sealed;
            blob = blob;
            is_nonce = length-take 24 sealed (ground (arith, long));
            not_empty = λ e. ground (arith, e);
            decoded =
                is
                ∙ ap some (
                    sym (take-drop 24 sealed)
                    ∙ ap (λ box. take 24 sealed ++ box)
                        (laws.authentic (take 24 sealed) (drop 24 sealed) blob opened));
            parsed = parsed;
          }
    ]
  ]

  IsMade-open_cookie :
      (crypto : Crypto) (json : Json A) (value : Text) (a : A)
      → IsSealing crypto
      → IsMade crypto json value a
      → open_cookie crypto json (some value) ≡ unsealed a
  IsMade-open_cookie crypto json [] a laws m = absurd (m.not_empty refl)
  IsMade-open_cookie crypto json (b ∷ bs) a laws m =
      ap (open_sealed crypto json) m.decoded
      ∙ open_sealed-append crypto json m.nonce m.blob m.is_nonce
      ∙ ap (parse_blob json) (laws.opens m.nonce m.blob)
      ∙ ap of_option m.parsed

  open_cookie-panics :
      (crypto : Crypto) (json : Json A) (value : Text)
      → open_cookie crypto json (some value) ≡ panics
      → (value ≢ []) × (sealed : Text) × (crypto.decode value ≡ some sealed) × (length sealed < 24)
  open_cookie-panics crypto json [] h = absurd (ground (arith, h))
  open_cookie-panics crypto json (b ∷ bs) h = elim (Option-cases (crypto.decode (b ∷ bs))) [
    | inl fails ↦ absurd (ground (arith, h, fails))
    | inr (sealed, is) ↦ elim (Bool-cases (ltb (length sealed) 24)) [
      | inl short ↦ (λ e. ground (arith, e), sealed, is, ground (arith, short))
      | inr long ↦ absurd (
          parse_blob-safe json (crypto.open_box (take 24 sealed) (drop 24 sealed))
            (ground (arith, h, is, long)))
    ]
  ]

  panics-open_cookie :
      (crypto : Crypto) (json : Json A) (value sealed : Text)
      → value ≢ []
      → crypto.decode value ≡ some sealed
      → length sealed < 24
      → open_cookie crypto json (some value) ≡ panics
  panics-open_cookie crypto json [] sealed full is short = absurd (full refl)
  panics-open_cookie crypto json (b ∷ bs) sealed full is short = rw is (ground (arith, short))

  -- If secretbox and base64 keep their promises, a request yields a value exactly when the cookie
  -- of that name is one that the server can have made for it, and the server panics exactly when
  -- the value of the cookie is base64 of fewer than 24 bytes.
  pub unseal_exact :
      (crypto : Crypto) (is_secure : Bool) (json : Json A) (cookies : Dict Text) (name : Text)
      (a : A)
      → IsSealing crypto
      → (unseal crypto is_secure json cookies name ≡ unsealed a ↔ (
          (value : Text) × (get (cookie_name is_secure name) cookies ≡ some value)
          × IsMade crypto json value a))
        × (unseal crypto is_secure json cookies name ≡ panics ↔ (
            (value : Text) × (get (cookie_name is_secure name) cookies ≡ some value)
            × (value ≢ [])
            × (sealed : Text) × (crypto.decode value ≡ some sealed)
            × (length sealed < 24)))
  unfolding unseal
  unseal_exact crypto is_secure json cookies name a laws =
      go (get (cookie_name is_secure name) cookies)
    where
      go :
          (found : Option Text)
          → (open_cookie crypto json found ≡ unsealed a
              ↔ ((value : Text) × (found ≡ some value) × IsMade crypto json value a))
            × (open_cookie crypto json found ≡ panics ↔ (
                (value : Text) × (found ≡ some value)
                × (value ≢ [])
                × (sealed : Text) × (crypto.decode value ≡ some sealed)
                × (length sealed < 24)))
      go none = (
        (λ h. absurd (ground (arith, h)), λ h. absurd (ground (arith, h.1))),
        (λ h. absurd (ground (arith, h)), λ h. absurd (ground (arith, h.1))),
      )
      go (some value) = (
        (
          λ h. (value, refl, open_cookie-IsMade crypto json value a laws h),
          λ h. ap (open_cookie crypto json) h.1 ∙ IsMade-open_cookie crypto json h.0 a laws h.2,
        ),
        (
          λ h.
              let (full, sealed, is, short) = open_cookie-panics crypto json value h in
              (value, refl, full, sealed, is, short),
          λ h.
              ap (open_cookie crypto json) h.1 ∙ panics-open_cookie crypto json h.0 h.3 h.2 h.4 h.5,
        ),
      )
