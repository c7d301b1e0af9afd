-- ===== src/Rtsp/Server/Playing.antt =====
-- DESCRIBE, SETUP and PLAY, in their order and out of it.
use gunk.Base.{
  ◌++◌, ltb, Option, ℕ, zero, suc, ◌≡◌, ◌∙◌, refl, ap, true, false, none, some, List, [], ◌∷◌, map,
  Text, arith, get_elem?,
}
use gunk.Base.Int.{ℤ}
use gunk.Rtsp.State.{
  Error, h264, opus, unsupported, new_conn, Conn, Input, Stream, streams, UdpAddr,
}
use gunk.Rtsp.Server.{
  sends, panics, send_to, make_tracks, all_supported, handle_describe, handle_setup, handle_play,
  play_with, write_response, is_empty, is_zero, port_range, split, dest_port, play_packet,
  played_by,
}

-- A SETUP request names a port, and the server can answer.
pub record SetsUp (atoi : Text → ℤ) (r : Input) : Type 0 where
  pub named : is_empty (port_range [] (split b';' r.transport_value)) ≡ false
  pub nonzero : is_zero (dest_port atoi r.transport_value) ≡ false
  pub answers : r.writes ≡ true

-- A PLAY request whose source is found.
pub record CanPlay (r : Input) : Type 0 where
  pub ss : List Stream
  pub found : r.answer ≡ streams ss
  pub answers : r.writes ≡ true

-- PLAY is answered with 200, and the connection goes on.
abbrev pub IsPlaying : Input → Conn → Conn × Option Error → Type 0
IsPlaying r before h =
    (h.1 ≡ none)
    × (h.0.responses
        ≡ before.responses ++ record { cseq = r.cseq; code = 200; headers = []; body = [] } ∷ [])

ltb-suc : (n : ℕ) → ltb n (suc n) ≡ true
ltb-suc n = ground arith

module _ (atoi : Text → ℤ) (src_port : ℕ) (remote_ip : Text) where
  -- Where the packets of a client go.
  abbrev pub client : Input → UdpAddr
  client r = record { ip = remote_ip; port = dest_port atoi r.transport_value }

  set_up_dest :
      (r : Input) (c : Conn)
      → SetsUp atoi r
      → let d = (handle_setup atoi src_port remote_ip r c).0 in
        (d.dest_addr ≡ some (client r))
        × (d.tracks ≡ map (send_to (client r)) c.tracks)
        × (d.cancelled ≡ c.cancelled)
        × (d.players ≡ c.players)
  unfolding handle_setup write_response
  set_up_dest r c v = ground (arith, v)

  play_lem :
      (r : Input) (c : Conn) (dest : UdpAddr)
      → CanPlay r
      → c.dest_addr ≡ some dest
      → let d = (handle_play r c).0 in
        (d.tracks ≡ c.tracks)
        × (d.cancelled ≡ c.cancelled)
        × (d.players ≡ suc c.players)
        × IsPlaying r c (handle_play r c)
  unfolding handle_play play_with write_response
  play_lem r c dest v set = ground (arith, v)

  tracks_lem :
      (dest : UdpAddr) (ss : List Stream) (idx : ℕ) (s : Stream)
      → all_supported ss ≡ true
      → get_elem? ss idx ≡ some s
      → played_by (get_elem? (map (send_to dest) (make_tracks ss)) idx) ≡ sends s (some dest)
  unfolding make_tracks all_supported
  tracks_lem dest [] idx s ok at = ground arith
  tracks_lem dest (unsupported ∷ ss) idx s ok at = ground arith
  tracks_lem dest (h264 ∷ ss) zero s ok at = ground arith
  tracks_lem dest (h264 ∷ ss) (suc idx) s ok at = tracks_lem dest ss idx s ok at
  tracks_lem dest (opus ∷ ss) zero s ok at = ground arith
  tracks_lem dest (opus ∷ ss) (suc idx) s ok at = tracks_lem dest ss idx s ok at

  unaddressed :
      (ss : List Stream) (idx : ℕ) (s : Stream)
      → all_supported ss ≡ true
      → get_elem? ss idx ≡ some s
      → played_by (get_elem? (make_tracks ss) idx) ≡ sends s none
  unfolding make_tracks all_supported
  unaddressed [] idx s ok at = ground arith
  unaddressed (unsupported ∷ ss) idx s ok at = ground arith
  unaddressed (h264 ∷ ss) zero s ok at = ground arith
  unaddressed (h264 ∷ ss) (suc idx) s ok at = unaddressed ss idx s ok at
  unaddressed (opus ∷ ss) zero s ok at = ground arith
  unaddressed (opus ∷ ss) (suc idx) s ok at = unaddressed ss idx s ok at

  describe_lem :
      (r : Input) (url : Text) (ss : List Stream) (c : Conn)
      → all_supported ss ≡ true
      → r.writes ≡ true
      → let d = (handle_describe r url (streams ss) c).0 in
        (d.tracks ≡ make_tracks ss) × (d.cancelled ≡ c.cancelled) × (d.dest_addr ≡ c.dest_addr)
  unfolding handle_describe write_response
  describe_lem r url ss c ok writes = ground arith

  -- On a connection that is not cancelled, a client that sends DESCRIBE, SETUP and PLAY in this
  -- order, all of which can be answered, for streams of supported codecs: PLAY is answered
  -- with 200 and has started a goroutine, which sends each packet of each stream by the stream's
  -- codec to the client's address and to the port that SETUP named.
  pub describe-setup-play :
      (d s p : Input) (url : Text) (ss : List Stream) (c : Conn) (idx : ℕ) (stream : Stream)
      → c.cancelled ≡ false
      → all_supported ss ≡ true
      → d.writes ≡ true
      → SetsUp atoi s
      → CanPlay p
      → get_elem? ss idx ≡ some stream
      → let described = (handle_describe d url (streams ss) c).0 in
        let set = (handle_setup atoi src_port remote_ip s described).0 in
        IsPlaying p set (handle_play p set)
        × (play_packet set.players idx (handle_play p set).0 ≡ sends stream (some (client s)))
  unfolding play_packet
  describe-setup-play d s p url ss c idx stream live ok writes set can at =
      let described = (handle_describe d url (streams ss) c).0 in
      let placed = (handle_setup atoi src_port remote_ip s described).0 in
      let played = (handle_play p placed).0 in
      let (made, same₁, _) = describe_lem d url ss c ok writes in
      let (addressed, sent, same₂, _) = set_up_dest s described set in
      let (same₃, same₄, one_more, answered) = play_lem p placed (client s) can addressed in
      let tracks = same₃ ∙ sent ∙ ap (λ ts. map (send_to (client s)) ts) made in
      let still = same₄ ∙ same₂ ∙ same₁ ∙ live in
      (
        answered,
        rw (still, tracks, one_more, ltb-suc placed.players)
            (tracks_lem (client s) ss idx stream ok at),
      )

  -- A client that leaves DESCRIBE out, on a new connection: PLAY is answered with 200
  -- and has started a goroutine, which panics at the first packet of any stream.
  -- A client that sends SETUP before DESCRIBE: PLAY is answered with 200 too and has
  -- started a goroutine, which has no address to send the packets to.
  pub setup_first :
      (d s p : Input) (url : Text) (ss : List Stream) (idx : ℕ) (stream : Stream)
      → all_supported ss ≡ true
      → d.writes ≡ true
      → SetsUp atoi s
      → CanPlay p
      → get_elem? ss idx ≡ some stream
      → let set = (handle_setup atoi src_port remote_ip s new_conn).0 in
        let described = (handle_describe d url (streams ss) set).0 in
        IsPlaying p set (handle_play p set)
        × (play_packet set.players idx (handle_play p set).0 ≡ panics)
        × IsPlaying p described (handle_play p described)
        × (play_packet described.players idx (handle_play p described).0 ≡ sends stream none)
  unfolding play_packet
  setup_first d s p url ss idx stream ok writes set can at =
      let placed = (handle_setup atoi src_port remote_ip s new_conn).0 in
      let described = (handle_describe d url (streams ss) placed).0 in
      let (addressed, sent, same₁, _) = set_up_dest s new_conn set in
      let (same₂, same₃, more₁, answered₁) = play_lem p placed (client s) can addressed in
      let (made, same₄, kept) = describe_lem d url ss placed ok writes in
      let (same₅, same₆, more₂, answered₂) =
        play_lem p described (client s) can (kept ∙ addressed) in
      (
        answered₁,
        rw (same₃ ∙ same₁, same₂ ∙ sent, more₁, ltb-suc placed.players) refl,
        answered₂,
        rw (same₆ ∙ same₄ ∙ same₁, same₅ ∙ made, more₂, ltb-suc described.players)
            (unaddressed ss idx stream ok at),
      )
