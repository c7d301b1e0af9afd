-- ===== src/Rtsp/Server.antt =====
-- sinks/rtsp/server.go and handler.go: a connection of the RTSP server, one request at a time.
-- strconv.Atoi is a parameter.
pub mod Responses
pub mod Playing
use gunk.Base.{
  ltb, ℕ, suc, ◌≡◌, Bool, true, false, Option, none, some, List, [], ◌∷◌, ◌++◌, map, ◌==◌,
  if◌then◌else◌, Text, codes, text_eq, get_elem?,
}
use gunk.Base.Int.{ℤ, pos, negsuc}
use gunk.Ftl.Words.{fields}
use gunk.Rtsp.State.{
  Stream, Source, UdpAddr, Track, Header, Response, Input, Read, Error, Conn, new_conn, h264, opus,
  unsupported, streams, not_found, fails, public_methods, content_base, content_sdp, transport,
  session, reads, read_fails, reading, bad_line, bad_url, writing, handling,
}

-- WriteResponse, with one of the codes of responseText.
unfoldable pub write_response : Input → ℕ → List Header → List Stream → Conn → Conn × Option Error
write_response r code headers body c =
    if r.writes
    then (
      record c {
        responses =
            c.responses
            ++ record { cseq = r.cseq; code = code; headers = headers; body = body } ∷ [];
      },
      none,
    )
    else (c, some writing)

-- The tracks of handleDescribe: an unsupported codec ends its loop, and leaves the rest nil.
unfoldable pub make_tracks : List Stream → List (Option Track)
make_tracks [] = []
make_tracks (unsupported ∷ ss) = none ∷ map (λ s. none) ss
make_tracks (s ∷ ss) = some (record { codec = s; addr = none }) ∷ make_tracks ss

unfoldable pub all_supported : List Stream → Bool
all_supported [] = true
all_supported (unsupported ∷ ss) = false
all_supported (s ∷ ss) = all_supported ss

-- handleDescribe, with the URL.
unfoldable pub handle_describe : Input → Text → Source → Conn → Conn × Option Error
handle_describe r url not_found c = write_response r 404 [] [] c
handle_describe r url fails c = (c, some handling)
handle_describe r url (streams ss) c =
    let made = record c { ssrc = r.random; tracks = make_tracks ss } in
    if all_supported ss
    then write_response r 200 (content_base url ∷ content_sdp ∷ []) ss made
    else (made, some handling)

-- strings.Split(s, sep), for one character, and its first part.
abbrev split_step : Bool → ℕ → List Text → List Text
split_step true c parts = [] ∷ parts
split_step false c [] = (c ∷ []) ∷ []
split_step false c (part ∷ parts) = (c ∷ part) ∷ parts

abbrev pub split : ℕ → Text → List Text
split sep [] = [] ∷ []
split sep (c ∷ cs) = split_step (c == sep) c (split sep cs)

abbrev pub first_of : List Text → Text
first_of [] = []
first_of (part ∷ parts) = part

-- The text behind a prefix.
abbrev pub behind : Text → Text → Option Text
behind [] cs = some cs
behind (p ∷ ps) [] = none
behind (p ∷ ps) (c ∷ cs) = let rest = behind ps cs in if p == c then rest else none

-- The last of the words that give a client_port, or "".
unfoldable pub port_range : Text → List Text → Text
port_range range [] = range
port_range range (w ∷ ws) = elim (behind (codes "client_port=") w) [
  | none ↦ port_range range ws
  | some r ↦ port_range r ws
]

abbrev pub is_zero : ℤ → Bool
is_zero (pos n) = n == 0
is_zero (negsuc n) = false

abbrev pub is_empty : Text → Bool
is_empty [] = true
is_empty (_ ∷ _) = false

abbrev pub send_to : UdpAddr → Option Track → Option Track
send_to addr none = none
send_to addr (some t) = some (record t { addr = some addr })

-- The port of handleSetup.
unfoldable pub dest_port : (Text → ℤ) → Text → ℤ
unfolding port_range
dest_port atoi transport_value =
    atoi (first_of (split b'-' (port_range [] (split b';' transport_value))))

-- handlePlay, with the address and the answer: the goroutine is started before the response is
-- written.
unfoldable pub play_with : Input → Option UdpAddr → Source → Conn → Conn × Option Error
unfolding write_response
play_with r none answer c = (c, some handling)
play_with r (some dest) not_found c = write_response r 404 [] [] c
play_with r (some dest) fails c = (c, some handling)
play_with r (some dest) (streams ss) c =
    write_response r 200 [] [] (record c { players = suc c.players })

unfoldable pub handle_play : Input → Conn → Conn × Option Error
unfolding play_with
handle_play r c = play_with r c.dest_addr r.answer c

-- The error that handleRequest wraps.
abbrev pub wrapped : Conn × Option Error → Conn × Option Error
wrapped (c, none) = (c, none)
wrapped (c, some e) = (c, some handling)

-- How the loop of serve goes on after a request.
unfoldable pub go_on : (Conn → Conn) → Conn × Option Error → Conn
go_on rest (c, none) = rest c
go_on rest (c, some e) = record c { cancelled = true }

module _ (atoi : Text → ℤ) (src_port : ℕ) (remote_ip : Text) where
  -- handleSetup. It would dereference a nil track, but a DESCRIBE that leaves one ends the
  -- connection.
  unfoldable pub handle_setup : Input → Conn → Conn × Option Error
  unfolding dest_port port_range write_response
  handle_setup r c =
      let dest : UdpAddr = record { ip = remote_ip; port = dest_port atoi r.transport_value } in
      if is_empty (port_range [] (split b';' r.transport_value))
      then (c, some handling)
      else if is_zero (dest_port atoi r.transport_value)
      then (c, some handling)
      else write_response r 200 (transport r.transport_value src_port c.ssrc ∷ session c.ssrc ∷ [])
          [] (record c { dest_addr = some dest; tracks = map (send_to dest) c.tracks })

  -- The switch of handleRequest.
  unfoldable pub dispatch : Input → Text → Text → Conn → Conn × Option Error
  unfolding write_response handle_describe handle_setup handle_play
  dispatch r method url c =
      if text_eq method (codes "OPTIONS")
      then wrapped (write_response r 200 (public_methods ∷ []) [] c)
      else if text_eq method (codes "DESCRIBE")
      then wrapped (handle_describe r url r.answer c)
      else if text_eq method (codes "SETUP")
      then wrapped (handle_setup r c)
      else if text_eq method (codes "PLAY")
      then wrapped (handle_play r c)
      else if text_eq method (codes "TEARDOWN")
      then write_response r 200 [] [] (record c { cancelled = true })
      else write_response r 405 [] [] c

  -- The request line: three words.
  unfoldable pub on_words : Input → List Text → Conn → Conn × Option Error
  unfolding dispatch
  on_words r (method ∷ url ∷ version ∷ []) c =
      if r.url_ok then dispatch r method url c else (c, some bad_url)
  on_words r _ c = (c, some bad_line)

  -- handleRequest
  unfoldable pub handle_request : Read → Conn → Conn × Option Error
  unfolding on_words
  handle_request read_fails c = (c, some reading)
  handle_request (reads r) c = on_words r (fields r.line) c

  -- serve: the requests are handled until one fails, then the connection is closed and cancelled.
  -- The end of the list is the connection's end.
  unfoldable pub serve : List Read → Conn → Conn
  unfolding handle_request go_on
  serve [] c = record c { cancelled = true }
  serve (r ∷ rs) c = go_on (serve rs) (handle_request r c)

-- What the goroutine that the PLAY with a number started, counted from 0, does with a packet of the
-- stream with an index: `idle` if that PLAY has started none.
pub data Played : Type 0 where
  idle : Played
  stops : Played
  skips : Played
  sends : Stream → Option UdpAddr → Played
  panics : Played

abbrev pub played_by : Option (Option Track) → Played
played_by none = panics
played_by (some none) = skips
played_by (some (some t)) = sends t.codec t.addr

unfoldable pub play_packet : ℕ → ℕ → Conn → Played
play_packet player idx c =
    let played = if c.cancelled then stops else played_by (get_elem? c.tracks idx) in
    if ltb player c.players then played else idle
