-- ===== src/Ftl/Serve/Setup.antt =====
-- What a session is set up with: the parameters that the client has given, checked and in range.
use gunk.Base.{
  All-Unit, ℕ, ◌≤◌, ◌<◌, ◌≡◌, refl, true, none, List, [], ◌∷◌, arith, Text, All, Option-cases, inl,
  inr, ◌^◌, ◌↔◌, ◌≢◌, codes, text_eq_iff,
}
use gunk.Ftl.Words.{parse_uint, parse_uint-lt}
use gunk.Ftl.State.{Conn, config, rank, Session, Round, Peer, new_conn}
use gunk.Ftl.Handlers.{
  handle_hmac, handle_connect, handle_enable, handle_codec, handle_pt, handle_ssrc, handle_live,
  session_of, deframer_of, hash_keys,
}
use gunk.Ftl.Serve.Keeps.{Keeps, serve-Keeps}
use gunk.Ftl.Serve.{serve}
use gunk.Ftl.Deframer.{h264, new_h264}

-- The session is for non-zero SSRCs and a non-zero payload type of their widths.
pub record IsSetUp (peer : Peer) (s : Session) : Type 0 where
  pub vssrc : ℕ
  pub assrc : ℕ
  pub vpayload : ℕ
  pub vssrc_range : (0 < vssrc) × (vssrc < 2 ^ 32)
  pub assrc_range : (0 < assrc) × (assrc < 2 ^ 32)
  pub vpayload_range : (0 < vpayload) × (vpayload < 2 ^ 8)
  pub keys_eq : s.keys ≡ hash_keys peer.ip vssrc assrc
  pub deframers_eq : s.deframers ≡ deframer_of vssrc vpayload 90000 (h264 new_h264) ∷ []

pub record Inv (peer : Peer) (c : Conn) : Type 0 where
  pub vssrc_fits : c.vssrc < 2 ^ 32
  pub assrc_fits : c.assrc < 2 ^ 32
  pub vpayload_fits : c.vpayload < 2 ^ 8
  pub apayload_fits : c.apayload < 2 ^ 8
  pub early : rank c.state ≤ 2 → c.sessions ≡ []
  pub set_up : All (IsSetUp peer) c.sessions

module _ (peer : Peer) (r : Round) (c : Conn) (v : Inv peer c) where
  hmac-Inv : Inv peer (handle_hmac r c).0
  unfolding handle_hmac
  hmac-Inv = ground arith

  connect-Inv : (words : List Text) → Inv peer (handle_connect peer r words c).0
  unfolding handle_connect
  connect-Inv (w ∷ id ∷ hex ∷ more) = ground arith
  connect-Inv [] = v
  connect-Inv (w ∷ []) = v
  connect-Inv (w ∷ id ∷ []) = v

  session-IsSetUp : 0 < c.vssrc → 0 < c.assrc → 0 < c.vpayload → IsSetUp peer (session_of peer c)
  session-IsSetUp p q h = record {
    vssrc = c.vssrc;
    assrc = c.assrc;
    vpayload = c.vpayload;
    vssrc_range = (p, v.vssrc_fits);
    assrc_range = (q, v.assrc_fits);
    vpayload_range = (h, v.vpayload_fits);
    keys_eq = refl;
    deframers_eq = refl;
  }

  live-Inv : Inv peer (handle_live peer r c).0
  unfolding handle_live
  live-Inv = ground (arith, session-IsSetUp)

module _ (peer : Peer) (c : Conn) (v : Inv peer c) where
  enable-Inv : (words : List Text) → Inv peer (handle_enable words c).0
  unfolding handle_enable
  enable-Inv words = ground arith

  codec-Inv : (words : List Text) → Inv peer (handle_codec words c).0
  unfolding handle_codec
  codec-Inv words = ground arith

  pt-Inv : (words : List Text) → Inv peer (handle_pt words c).0
  unfolding handle_pt
  pt-Inv [] = v
  pt-Inv (w ∷ []) = v
  pt-Inv (w ∷ value ∷ []) = elim (Option-cases (parse_uint value 8)) [
    | inl bad ↦ ground arith
    | inr (n, e) ↦ ground (arith, parse_uint-lt value 8 e)
  ]
  pt-Inv (w ∷ value ∷ x ∷ more) = v

  ssrc-Inv : (words : List Text) → Inv peer (handle_ssrc words c).0
  unfolding handle_ssrc
  ssrc-Inv [] = v
  ssrc-Inv (w ∷ []) = v
  ssrc-Inv (w ∷ value ∷ []) = elim (Option-cases (parse_uint value 32)) [
    | inl bad ↦ ground arith
    | inr (n, e) ↦ ground (arith, parse_uint-lt value 32 e)
  ]
  ssrc-Inv (w ∷ value ∷ x ∷ more) = v

Inv-Keeps : (peer : Peer) → Keeps peer (λ _. Unit {0}) (Inv peer)
Inv-Keeps peer = record {
  on_reply = λ c reply v. ground arith;
  on_hmac = λ r c words _ _ v. hmac-Inv peer r c v;
  on_connect = λ r c words _ _ v. connect-Inv peer r c v words;
  on_enable = λ c words v. enable-Inv peer c v words;
  on_codec = λ c words v. codec-Inv peer c v words;
  on_pt = λ c words v. pt-Inv peer c v words;
  on_ssrc = λ c words v. ssrc-Inv peer c v words;
  on_live = live-Inv peer;
}

new_conn-Inv : (peer : Peer) → Inv peer new_conn
new_conn-Inv peer = ground arith

-- Whatever a client sends, every session has been set up for SSRCs and a video payload type that
-- are not zero and within 32 and 8 bits, under the keys of its address and its SSRCs, with one 90
-- kHz H.264 deframer in its initial state for the video SSRC and payload type.
pub serve-IsSetUp :
    (peer : Peer) (rs : List Round) → All (IsSetUp peer) (serve peer new_conn rs).0.sessions
serve-IsSetUp peer rs =
    (serve-Keeps peer (λ _. Unit {0}) (Inv peer) (Inv-Keeps peer) new_conn rs (All-Unit rs)
      (new_conn-Inv peer)).set_up

-- While a connection configures, the line "." is taken exactly when both media are enabled, the
-- codecs are H264 and OPUS, and no payload type or SSRC is zero, if the reply can be written.
pub handle_live_exact :
    (peer : Peer) (r : Round) (c : Conn)
    → c.state ≡ config
    → r.write_ok ≡ true
    → ((handle_live peer r c).1 ≡ none) ↔ (
        (c.video ≡ true)
        × (c.audio ≡ true)
        × (c.vcodec ≡ codes "H264")
        × (c.acodec ≡ codes "OPUS")
        × (c.vpayload ≢ 0)
        × (c.apayload ≢ 0)
        × (c.vssrc ≢ 0)
        × (c.assrc ≢ 0))
unfolding handle_live
handle_live_exact peer r c now w =
    ground (arith, text_eq_iff c.vcodec (codes "H264"), text_eq_iff c.acodec (codes "OPUS"))
