-- ===== src/Ftl/Serve/Order.antt =====
-- The order of an FTL exchange: states only go forward, refused commands are answered, and what a
-- live connection still takes.
use gunk.Base.{
  ◌≤◌, ◌≡◌, refl, true, false, none, some, List, [], ◌∷◌, ◌++◌, arith, Text, All, ltb, Bool-cases,
  inl, inr, ◌↔◌, ◌&&◌, ◌≢◌,
}
use gunk.Ftl.Words.{fields, is_space, fields-nil}
use gunk.Ftl.State.{
  Conn, live, rank, Round, Peer, Error, Handled, Reply, bad_request, got, timeout, failed, Read,
}
use gunk.Ftl.Handlers.{
  handle_hmac, handle_connect, handle_enable, handle_codec, handle_pt, handle_ssrc, handle_live,
}
use gunk.Ftl.Serve.{
  Command, go_on, stop, panic, hmac, connect, disconnect, ping, protocol_version, ignored, enable,
  codec, payload_type, ssrc, dot, unknown, dispatch, on_words, on_read, round, serve, command_of,
  finish, is_bad_version,
}

module _ (peer : Peer) (r : Round) (c : Conn) where
  connect_rank : (words : List Text) → rank c.state ≤ rank (handle_connect peer r words c).0.state
  unfolding handle_connect
  connect_rank (w ∷ id ∷ hex ∷ more) = ground arith
  connect_rank [] = ground arith
  connect_rank (w ∷ []) = ground arith
  connect_rank (w ∷ id ∷ []) = ground arith

  rank-dispatch :
      (k : Command) (words : List Text) → rank c.state ≤ rank (dispatch peer r k words c).0.state
  unfolding dispatch handle_hmac handle_enable handle_codec handle_pt handle_ssrc handle_live
  rank-dispatch connect words = ground (arith, connect_rank words)
  rank-dispatch _ words = ground arith

  words_rank : (words : List Text) → rank c.state ≤ rank (on_words peer r words c).0.state
  words_rank [] = ground arith
  words_rank (w ∷ ws) = rank-dispatch (command_of w) (w ∷ ws)

  read_rank : (line : Read) → rank c.state ≤ rank (on_read peer r line c).0.state
  read_rank (got (x ∷ xs)) = words_rank (fields (x ∷ xs))
  read_rank (got []) = ground arith
  read_rank timeout = ground arith
  read_rank failed = ground arith

  rank-round : rank c.state ≤ rank (round peer c r).0.state
  unfolding round
  rank-round = ground (arith, read_rank r.line)

  -- A command of a live connection that is taken changes nothing but the output.
  dispatch_live :
      (k : Command) (words : List Text)
      → c.state ≡ live
      → (dispatch peer r k words c).1 ≡ go_on
      → (dispatch peer r k words c).0 ≡ record c { out = (dispatch peer r k words c).0.out }
  unfolding dispatch handle_hmac handle_enable handle_codec handle_pt handle_ssrc handle_live
      handle_connect
  dispatch_live connect (w ∷ id ∷ hex ∷ more) now on = ground arith
  dispatch_live connect [] now on = ground arith
  dispatch_live connect (w ∷ []) now on = ground arith
  dispatch_live connect (w ∷ id ∷ []) now on = ground arith
  dispatch_live _ words now on = ground arith

-- From any state on, the connection's state never goes back: new, unauthenticated, configuring,
-- live.
pub rank-serve :
    (peer : Peer) (c : Conn) (rs : List Round) → rank c.state ≤ rank (serve peer c rs).0.state
unfolding serve
rank-serve peer c [] = ground arith
rank-serve peer c (r ∷ rs) =
    ground (arith, rank-round peer r c, rank-serve peer (round peer c r).0 rs)

-- The last line of the output is that of a bad request.
abbrev pub EndsRefused : Conn → Type 0
EndsRefused c = (before : List Reply) × (c.out ≡ before ++ bad_request ∷ [])

module _ (peer : Peer) (r : Round) (c : Conn) (w : r.write_ok ≡ true) (f : r.flush_ok ≡ true) where
  finish_refused :
      (h : Handled) {e : Error} → (finish r h).1 ≡ stop (some e) → EndsRefused (finish r h).0
  finish_refused (d, none) stopped = absurd (ground arith)
  finish_refused (d, some e) stopped = (d.out, ground arith)

  dispatch_refused :
      (k : Command) (words : List Text) {e : Error}
      → (dispatch peer r k words c).1 ≡ stop (some e)
      → EndsRefused (dispatch peer r k words c).0
  unfolding dispatch
  dispatch_refused hmac words h = finish_refused _ h
  dispatch_refused connect words h = finish_refused _ h
  dispatch_refused disconnect words h = absurd (ground arith)
  dispatch_refused ping words h = finish_refused _ h
  dispatch_refused protocol_version words h = elim (Bool-cases (is_bad_version words)) [
    | inl bad ↦ (c.out, ground arith)
    | inr good ↦ absurd (ground arith)
  ]
  dispatch_refused ignored words h = absurd (ground arith)
  dispatch_refused enable words h = finish_refused _ h
  dispatch_refused codec words h = finish_refused _ h
  dispatch_refused payload_type words h = finish_refused _ h
  dispatch_refused ssrc words h = finish_refused _ h
  dispatch_refused dot words h = finish_refused _ h
  dispatch_refused unknown words h = (c.out, ground arith)

  on_words_refused :
      (words : List Text) {e : Error}
      → (on_words peer r words c).1 ≡ stop (some e)
      → EndsRefused (on_words peer r words c).0
  on_words_refused [] h = absurd (ground arith)
  on_words_refused (word ∷ words) h = dispatch_refused (command_of word) (word ∷ words) h

-- The round reads a line that is not empty, in time.
abbrev pub Reads : Conn → Round → Text → Type 0
Reads c r line =
    (r.cancelled ≡ false)
    × ((ltb (rank c.state) 2 && r.past_deadline) ≡ false)
    × (r.line ≡ got line)
    × (line ≢ [])

reads_words :
    (peer : Peer) (c : Conn) (r : Round) (line : Text)
    → Reads c r line
    → round peer c r ≡ on_words peer r (fields line) c
unfolding round
reads_words peer c r [] reads = absurd (reads.3 refl)
reads_words peer c r (x ∷ xs) reads = ground arith

-- Where the socket takes what is written, serve never returns an error on a line that it has read
-- without a last line 400 Bad Request to the client.
pub round_refused :
    (peer : Peer) (c : Conn) (r : Round) (line : Text) {e : Error}
    → Reads c r line
    → r.write_ok ≡ true
    → r.flush_ok ≡ true
    → (round peer c r).1 ≡ stop (some e)
    → EndsRefused (round peer c r).0
round_refused peer c r line reads w f h =
    let step = reads_words peer c r line reads in
    rw step (on_words_refused peer r c w f (fields line) (rw step at h))

finish_calm : (r : Round) (h : Handled) → (finish r h).1 ≢ panic
finish_calm r (d, none) h = ground arith
finish_calm r (d, some e) h = ground arith

dispatch_calm :
    (peer : Peer) (r : Round) (c : Conn) (k : Command) (words : List Text)
    → (dispatch peer r k words c).1 ≢ panic
unfolding dispatch
dispatch_calm peer r c hmac words h = finish_calm r (handle_hmac r c) h
dispatch_calm peer r c connect words h = finish_calm r (handle_connect peer r words c) h
dispatch_calm peer r c disconnect words h = ground arith
dispatch_calm peer r c ping words h = ground arith
dispatch_calm peer r c protocol_version words h = ground arith
dispatch_calm peer r c ignored words h = ground arith
dispatch_calm peer r c enable words h = finish_calm r (handle_enable words c) h
dispatch_calm peer r c codec words h = finish_calm r (handle_codec words c) h
dispatch_calm peer r c payload_type words h = finish_calm r (handle_pt words c) h
dispatch_calm peer r c ssrc words h = finish_calm r (handle_ssrc words c) h
dispatch_calm peer r c dot words h = finish_calm r (handle_live peer r c) h
dispatch_calm peer r c unknown words h = ground arith

words_panic :
    (peer : Peer) (r : Round) (c : Conn) (words : List Text)
    → ((on_words peer r words c).1 ≡ panic) ↔ (words ≡ [])
words_panic peer r c [] = (λ h. refl, λ h. refl)
words_panic peer r c (w ∷ ws) =
    (λ h. absurd (dispatch_calm peer r c (command_of w) (w ∷ ws) h), λ h. ground arith)

-- Of the lines that are not empty, the handler panics exactly on those of white space alone.
pub round_panics :
    (peer : Peer) (c : Conn) (r : Round) (line : Text)
    → Reads c r line
    → ((round peer c r).1 ≡ panic) ↔ All (λ x. is_space x ≡ true) line
round_panics peer c r line reads =
    let step = reads_words peer c r line reads in
    let panics = words_panic peer r c (fields line) in
    let blank = fields-nil line in
    (λ h. blank.0 (panics.0 (rw step at h)), λ h. rw step (panics.1 (blank.1 h)))

read_live :
    (peer : Peer) (r : Round) (c : Conn) (line : Read)
    → c.state ≡ live
    → (on_read peer r line c).1 ≡ go_on
    → (on_read peer r line c).0 ≡ record c { out = (on_read peer r line c).0.out }
read_live peer r c timeout now on = refl
read_live peer r c failed now on = refl
read_live peer r c (got []) now on = refl
read_live peer r c (got (x ∷ xs)) now on = words_live (fields (x ∷ xs)) on
  where
    words_live :
        (words : List Text)
        → (on_words peer r words c).1 ≡ go_on
        → (on_words peer r words c).0 ≡ record c { out = (on_words peer r words c).0.out }
    words_live [] h = refl
    words_live (w ∷ ws) h = dispatch_live peer r c (command_of w) (w ∷ ws) now h

-- A round of a live connection that is taken changes nothing but the output.
pub round_live :
    (peer : Peer) (c : Conn) (r : Round)
    → c.state ≡ live
    → (round peer c r).1 ≡ go_on
    → (round peer c r).0 ≡ record c { out = (round peer c r).0.out }
unfolding round
round_live peer c r now on = ground (arith, read_live peer r c r.line)
