-- ===== src/Ftl/Serve/Keeps.antt =====
-- An invariant of the command loop: what every handler and every reply keeps, serve keeps.
use gunk.Base.{
  ◌≡◌, refl, All, Bool, true, false, none, some, List, [], ◌∷◌, ◌++◌, arith, Text, if◌then◌else◌,
  Bool-cases, inl, inr,
}
use gunk.Ftl.Words.{fields}
use gunk.Ftl.State.{
  Conn, Round, Peer, Handled, Reply, write, write_failed, pong, ok_reply, bad_request, got, timeout,
  failed, Read,
}
use gunk.Ftl.Handlers.{
  handle_hmac, handle_connect, handle_enable, handle_codec, handle_pt, handle_ssrc, handle_live,
}
use gunk.Ftl.Serve.{
  Command, hmac, connect, disconnect, ping, protocol_version, ignored, enable, codec, payload_type,
  ssrc, dot, unknown, dispatch, on_words, on_read, round, serve, command_of, finish, is_bad_version,
}

-- The words of the line that a round reads, with the command that they give.
pub record Says (r : Round) (k : Command) (words : List Text) : Type 0 where
  pub text : Text
  pub read : r.line ≡ got text
  pub split : fields text ≡ words
  pub word : Text
  pub more : List Text
  pub first : words ≡ word ∷ more
  pub names : command_of word ≡ k

-- What holds of each round may be used: `Given`.
pub record Keeps (peer : Peer) (Given : Round → Type 0) (P : Conn → Type 0) : Type 0 where
  pub on_reply : (c : Conn) (reply : Reply) → P c → P (record c { out = c.out ++ reply ∷ [] })
  pub on_hmac :
      (r : Round) (c : Conn) (words : List Text)
      → Given r
      → Says r hmac words
      → P c
      → P (handle_hmac r c).0
  pub on_connect :
      (r : Round) (c : Conn) (words : List Text)
      → Given r
      → Says r connect words
      → P c
      → P (handle_connect peer r words c).0
  pub on_enable : (c : Conn) (words : List Text) → P c → P (handle_enable words c).0
  pub on_codec : (c : Conn) (words : List Text) → P c → P (handle_codec words c).0
  pub on_pt : (c : Conn) (words : List Text) → P c → P (handle_pt words c).0
  pub on_ssrc : (c : Conn) (words : List Text) → P c → P (handle_ssrc words c).0
  pub on_live : (r : Round) (c : Conn) → P c → P (handle_live peer r c).0

module _ (peer : Peer) (Given : Round → Type 0) (P : Conn → Type 0)
    (keeps : Keeps peer Given P) where
  keeps_write : (r : Round) (reply : Reply) (c : Conn) → P c → P (write r reply c).0
  keeps_write r reply c h = either r.write_ok
    where
      either :
          (b : Bool)
          → P
              (if◌then◌else◌ {A = Handled} b
                (record c { out = c.out ++ reply ∷ [] }, none)
                (c, some write_failed)).0
      either true = keeps.on_reply c reply h
      either false = h

  keeps_finish : (r : Round) (h : Handled) → P h.0 → P (finish r h).0
  keeps_finish r (d, none) h = h
  keeps_finish r (d, some e) h = keeps_write r bad_request d h

  keeps_dispatch :
      (r : Round) (c : Conn) (k : Command) (words : List Text)
      → Given r
      → Says r k words
      → P c
      → P (dispatch peer r k words c).0
  unfolding dispatch
  keeps_dispatch r c hmac words given says h =
      keeps_finish r _ (keeps.on_hmac r c words given says h)
  keeps_dispatch r c connect words given says h =
      keeps_finish r _ (keeps.on_connect r c words given says h)
  keeps_dispatch r c disconnect words given says h = keeps_write r ok_reply c h
  keeps_dispatch r c ping words given says h = keeps_finish r _ (keeps_write r pong c h)
  keeps_dispatch r c protocol_version words given says h =
      elim (Bool-cases (is_bad_version words)) [
        | inl bad ↦ rw (bad, dispatch) (keeps_write r bad_request c h)
        | inr good ↦ rw (good, dispatch) h
      ]
  keeps_dispatch r c ignored words given says h = h
  keeps_dispatch r c enable words given says h = keeps_finish r _ (keeps.on_enable c words h)
  keeps_dispatch r c codec words given says h = keeps_finish r _ (keeps.on_codec c words h)
  keeps_dispatch r c payload_type words given says h = keeps_finish r _ (keeps.on_pt c words h)
  keeps_dispatch r c ssrc words given says h = keeps_finish r _ (keeps.on_ssrc c words h)
  keeps_dispatch r c dot words given says h = keeps_finish r _ (keeps.on_live r c h)
  keeps_dispatch r c unknown words given says h = keeps_write r bad_request c h

  keeps_words :
      (r : Round) (c : Conn) (text : Text) (words : List Text)
      → Given r
      → r.line ≡ got text
      → fields text ≡ words
      → P c
      → P (on_words peer r words c).0
  keeps_words r c text [] given read split h = h
  keeps_words r c text (w ∷ ws) given read split h =
      keeps_dispatch r c (command_of w) (w ∷ ws) given
        (record {
          text = text;
          read = read;
          split = split;
          word = w;
          more = ws;
          first = refl;
          names = refl;
        })
        h

  keeps_read :
      (r : Round) (c : Conn) (line : Read)
      → Given r
      → r.line ≡ line
      → P c
      → P (on_read peer r line c).0
  keeps_read r c timeout given read h = h
  keeps_read r c failed given read h = h
  keeps_read r c (got []) given read h = h
  keeps_read r c (got (x ∷ xs)) given read h =
      keeps_words r c (x ∷ xs) (fields (x ∷ xs)) given read refl h

  keeps_round : (r : Round) (c : Conn) → Given r → P c → P (round peer c r).0
  unfolding round
  keeps_round r c given h = ground (arith, keeps_read r c r.line given refl h)

  -- The invariant holds wherever serve stops, and of the connection that still runs.
  pub serve-Keeps : (c : Conn) (rs : List Round) → All Given rs → P c → P (serve peer c rs).0
  unfolding serve
  serve-Keeps c [] given h = h
  serve-Keeps c (r ∷ rs) (now, later) h =
      let kept = keeps_round r c now h in
      ground (arith, kept, serve-Keeps (round peer c r).0 rs later)
