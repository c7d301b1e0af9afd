-- ===== src/Ftl/Serve/Auth.antt =====
-- Who gets a session: what the loop of serve keeps, whatever the rounds bring.
use gunk.Base.{
  All-Any, by_branch, if◌then◌else◌, true, ◌∙◌, ◌≤◌, ◌≡◌, refl, Option, none, some, List, [], ◌∷◌,
  arith, Text, All, Any, is_some, length, Option-cases, Bool-cases, ltb, inl, inr,
}
use gunk.Model
use gunk.Model.{ChannelAuth}
use gunk.Ftl.Words.{decode_hex, trim_dollar}
use gunk.Ftl.State.{Conn, unauth, Handled, rand_failed, rank, Round, Peer, new_conn}
use gunk.Ftl.Handlers.{
  handle_hmac, handle_connect, handle_enable, handle_codec, handle_pt, handle_ssrc, handle_live,
  accepted, send_nonce,
}
use gunk.Ftl.Serve.Keeps.{Says, Keeps, serve-Keeps}
use gunk.Ftl.Serve.{serve, hmac, connect}

-- One of the rounds is an HMAC command, and the nonce is what was drawn in it.
pub record Drawn (rs : List Round) (n : Text) : Type 0 where
  pub drawing : Round
  pub drawing_words : List Text
  pub drawing_in : Any (λ x. x ≡ drawing) rs
  pub drawing_says : Says drawing hmac drawing_words
  pub random_eq : drawing.random ≡ n

-- One of the rounds is a CONNECT command for the channel, whose second parameter is the digest.
pub record Asked (rs : List Round) (channel_id digest : Text) : Type 0 where
  pub asking : Round
  pub asking_in : Any (λ x. x ≡ asking) rs
  pub word : Text
  pub hex : Text
  pub more : List Text
  pub asking_says : Says asking connect (word ∷ channel_id ∷ hex ∷ more)
  pub decodes : decode_hex (trim_dollar hex) ≡ some digest

-- CheckUser has accepted `auth` on the channel and the digest of a CONNECT command of the client,
-- for the nonce of the connection, drawn for an HMAC command.
pub record Accepted (peer : Peer) (rs : List Round) (nonce : Option Text) (auth : ChannelAuth)
    : Type 0 where
  pub n : Text
  pub nonce_eq : nonce ≡ some n
  pub drawn : Drawn rs n
  pub channel_id : Text
  pub digest : Text
  pub asked : Asked rs channel_id digest
  pub accepts : peer.check_user channel_id n digest ≡ (auth, none)

pub record Inv (peer : Peer) (rs : List Round) (c : Conn) : Type 0 where
  pub guarded : 2 ≤ rank c.state → Accepted peer rs c.nonce c.auth
  pub nonced : 1 ≤ rank c.state → is_some c.nonce ≡ true
  pub drawn : (n : Text) → c.nonce ≡ some n → Drawn rs n
  pub early : rank c.state ≤ 2 → c.sessions ≡ []
  pub granted : All (λ s. Accepted peer rs c.nonce s.auth) c.sessions
  pub single : length c.sessions ≤ 1

module _ (peer : Peer) (rs : List Round) (r : Round) (c : Conn) (v : Inv peer rs c) where
  unauth-Inv : rank c.state ≤ 1 → is_some c.nonce ≡ true → Inv peer rs (record c { state = unauth })
  unauth-Inv early known = ground (arith, v.drawn)

  new_nonce :
      Drawn rs r.random → rank c.state ≤ 1 → Inv peer rs (record c { nonce = some r.random })
  new_nonce d early = record {
    guarded = λ late. absurd (omega arith);
    nonced = λ _. refl;
    drawn = λ n e.
        let same : r.random ≡ n = cc in
        record {
          drawing = d.drawing;
          drawing_words = d.drawing_words;
          drawing_in = d.drawing_in;
          drawing_says = d.drawing_says;
          random_eq = d.random_eq ∙ same;
        };
    early = v.early;
    granted = rw (v.early (omega arith)) tt;
    single = v.single;
  }

module _ (peer : Peer) (rs : List Round) (r : Round) where
  sent-Inv :
      (c : Conn)
      → Inv peer rs c
      → rank c.state ≤ 1
      → is_some c.nonce ≡ true
      → Inv peer rs (send_nonce r c).0
  sent-Inv c v early known =
      let moved = unauth-Inv peer rs r c v early known in ground (arith, v.drawn, moved)

  hmac-Inv : (c : Conn) → Inv peer rs c → Drawn rs r.random → Inv peer rs (handle_hmac r c).0
  unfolding handle_hmac
  hmac-Inv c v d = elim (Bool-cases (ltb 1 (rank c.state))) [
    | inl late ↦ rw late v
    | inr early ↦ rw early (go (ground (arith, early)) c.nonce refl)
  ]
    where
      go :
          rank c.state ≤ 1
          → (o : Option Text) → c.nonce ≡ o
          → Inv peer rs
              (elim o as (λ _. Handled) [
                | some _ ↦ send_nonce r c
                | none ↦
                    let c' = record c { nonce = some r.random } in
                    if r.random_ok then send_nonce r c' else (c', some rand_failed)
              ]).0
      go early (some n) is = sent-Inv c v early (rw is refl)
      go early none is =
          let new = new_nonce peer rs r c v d early in
          by_branch (λ (h : Handled). Inv peer rs h.0) r.random_ok
            (λ ok. sent-Inv (record c { nonce = some r.random }) new early refl) (λ bad. new)

module _ (peer : Peer) (rs : List Round) (r : Round) (c : Conn) (v : Inv peer rs c) where
  accepted-Inv :
      (id digest n : Text) (a : ChannelAuth × Option Model.Error)
      → Asked rs id digest
      → c.nonce ≡ some n
      → peer.check_user id n digest ≡ a
      → c.state ≡ unauth
      → Inv peer rs (accepted r c a).0
  accepted-Inv id digest n (auth, some e) asked is checked now = ground arith
  accepted-Inv id digest n (auth, none) asked is checked now =
      let a : Accepted peer rs c.nonce auth = record {
        n = n;
        nonce_eq = is;
        drawn = v.drawn n is;
        channel_id = id;
        digest = digest;
        asked = asked;
        accepts = checked;
      } in
      ground arith

  live-Inv : Inv peer rs (handle_live peer r c).0
  unfolding handle_live
  live-Inv = ground arith

  connect-Inv :
      (words : List Text)
      → Any (λ x. x ≡ r) rs
      → Says r connect words
      → Inv peer rs (handle_connect peer r words c).0
  unfolding handle_connect
  connect-Inv (w ∷ id ∷ hex ∷ more) at says = elim (Option-cases (decode_hex (trim_dollar hex))) [
    | inl bad ↦ ground arith
    | inr (digest, e) ↦
        let asked : Asked rs id digest = record {
          asking = r;
          asking_in = at;
          word = w;
          hex = hex;
          more = more;
          asking_says = says;
          decodes = e;
        } in
        elim (Option-cases c.nonce) [
          | inl nil ↦ ground (arith, v.nonced)
          | inr (n, is) ↦
              ground (arith, accepted-Inv id digest n (peer.check_user id n digest) asked is refl)
        ]
  ]
  connect-Inv [] at says = v
  connect-Inv (w ∷ []) at says = v
  connect-Inv (w ∷ id ∷ []) at says = v

module _ (peer : Peer) (rs : List Round) (c : Conn) (v : Inv peer rs c) where
  enable-Inv : (words : List Text) → Inv peer rs (handle_enable words c).0
  unfolding handle_enable
  enable-Inv words = ground arith

  codec-Inv : (words : List Text) → Inv peer rs (handle_codec words c).0
  unfolding handle_codec
  codec-Inv words = ground arith

  pt-Inv : (words : List Text) → Inv peer rs (handle_pt words c).0
  unfolding handle_pt
  pt-Inv words = ground arith

  ssrc-Inv : (words : List Text) → Inv peer rs (handle_ssrc words c).0
  unfolding handle_ssrc
  ssrc-Inv words = ground arith

Inv-Keeps : (peer : Peer) (rs : List Round) → Keeps peer (λ r. Any (λ x. x ≡ r) rs) (Inv peer rs)
Inv-Keeps peer rs = record {
  on_reply = λ c reply v. ground arith;
  on_hmac = λ r c words at says v. hmac-Inv peer rs r c v (record {
    drawing = r;
    drawing_words = words;
    drawing_in = at;
    drawing_says = says;
    random_eq = refl;
  });
  on_connect = λ r c words at says v. connect-Inv peer rs r c v words at says;
  on_enable = λ c words v. enable-Inv peer rs c v words;
  on_codec = λ c words v. codec-Inv peer rs c v words;
  on_pt = λ c words v. pt-Inv peer rs c v words;
  on_ssrc = λ c words v. ssrc-Inv peer rs c v words;
  on_live = live-Inv peer rs;
}

new_conn-Inv : (peer : Peer) (rs : List Round) → Inv peer rs new_conn
new_conn-Inv peer rs = ground arith

-- Whatever a client sends and whenever serve ends, every session that the connection has started is
-- for an account that CheckUser accepted on the channel and the decoded digest of a CONNECT command
-- that the client sent, for the connection's nonce, which is what was drawn at an HMAC command that
-- the client sent; and there is at most one session.
pub serve_sessions :
    (peer : Peer) (rs : List Round)
    → let c = (serve peer new_conn rs).0 in
      All (λ s. Accepted peer rs c.nonce s.auth) c.sessions × (length c.sessions ≤ 1)
serve_sessions peer rs =
    let v =
      serve-Keeps peer (λ r. Any (λ x. x ≡ r) rs) (Inv peer rs) (Inv-Keeps peer rs) new_conn rs
        (All-Any rs) (new_conn-Inv peer rs) in
    (v.granted, v.single)
