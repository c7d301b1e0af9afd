-- ===== src/Ftl/Handlers.antt =====
-- ingest/ftl/handler.go: the handlers of the FTL commands. A handler returns the connection that it
-- leaves and its error.
use gunk.Base.{
  ℕ, ◌==◌, Bool, true, not, ◌&&◌, ◌||◌, Option, none, some, List, [], ◌∷◌, ◌++◌, ltb, if◌then◌else◌,
  Text, codes, text_eq, be32, length, take, drop,
}
use gunk.Model
use gunk.Model.{ChannelAuth}
use gunk.Ftl.Words.{equal_fold, trim_dollar, parse_uint, decode_hex}
use gunk.Ftl.Deframer.{Deframer, Parser, h264, new_h264}
use gunk.Ftl.State.{
  ConnState, unauth, config, live, rank, nonce_reply, ok_reply, live_reply, Session, Conn,
  rand_failed, unexpected_hmac, invalid_connect_line, invalid_state, bad_digest, rejected,
  unexpected_state, unexpected_value, bad_number, missing_parameter, unsupported_video_codec,
  unsupported_audio_codec, Round, Peer, Handled, write,
}

-- A nil nonce reads as no bytes.
abbrev pub nonce_bytes : Option Text → Text
nonce_bytes none = []
nonce_bytes (some n) = n

-- The end of handleHMAC: the state moves only if the reply was written.
abbrev pub sent_nonce : Handled → Handled
sent_nonce (c, none) = (record c { state = unauth }, none)
sent_nonce (c, some e) = (c, some e)

abbrev pub send_nonce : Round → Conn → Handled
send_nonce r c = sent_nonce (write r (nonce_reply (nonce_bytes c.nonce)) c)

unfoldable pub handle_hmac : Round → Conn → Handled
handle_hmac r c = if ltb 1 (rank c.state) then (c, some unexpected_hmac) else elim c.nonce [
  | some _ ↦ send_nonce r c
  | none ↦
      let c' = record c { nonce = some r.random } in
      if r.random_ok then send_nonce r c' else (c', some rand_failed)
]

abbrev pub is_state : ConnState → ConnState → Bool
is_state s t = rank s == rank t

-- The end of handleConnect. CheckUser's first result is stored in any case.
abbrev pub accepted : Round → Conn → ChannelAuth × Option Model.Error → Handled
accepted r c (auth, some e) = (record c { auth = auth }, some (rejected e))
accepted r c (auth, none) = write r ok_reply (record c { auth = auth; state = config })

unfoldable pub handle_connect : Peer → Round → List Text → Conn → Handled
handle_connect peer r (_ ∷ channel_id ∷ digest_hex ∷ _) c =
    if not (is_state c.state unauth)
    then (c, some invalid_state)
    else elim (decode_hex (trim_dollar digest_hex)) [
      | none ↦ (c, some bad_digest)
      | some digest ↦ accepted r c (peer.check_user channel_id (nonce_bytes c.nonce) digest)
    ]
handle_connect peer r _ c = (c, some invalid_connect_line)

-- words[0][:5] == "Video"
unfoldable pub is_video : Text → Bool
is_video word = text_eq (take 5 word) (codes "Video")

unfoldable pub handle_enable : List Text → Conn → Handled
unfolding is_video
handle_enable (word ∷ value ∷ []) c =
    if not (is_state c.state config)
    then (c, some unexpected_state)
    else if not (equal_fold value (codes "true"))
    then (c, some unexpected_value)
    else (if is_video word then record c { video = true } else record c { audio = true }, none)
handle_enable _ c =
    (c, some (if not (is_state c.state config) then unexpected_state else unexpected_value))

unfoldable pub handle_codec : List Text → Conn → Handled
unfolding is_video
handle_codec (word ∷ value ∷ []) c =
    if not (is_state c.state config)
    then (c, some unexpected_state)
    else (if is_video word then record c { vcodec = value } else record c { acodec = value }, none)
handle_codec _ c =
    (c, some (if not (is_state c.state config) then unexpected_state else unexpected_value))

unfoldable pub handle_pt : List Text → Conn → Handled
unfolding is_video
handle_pt (word ∷ value ∷ []) c =
    if not (is_state c.state config)
    then (c, some unexpected_state)
    else elim (parse_uint value 8) [
      | none ↦ (c, some bad_number)
      | some v ↦
          (if is_video word then record c { vpayload = v } else record c { apayload = v }, none)
    ]
handle_pt _ c =
    (c, some (if not (is_state c.state config) then unexpected_state else unexpected_value))

unfoldable pub handle_ssrc : List Text → Conn → Handled
unfolding is_video
handle_ssrc (word ∷ value ∷ []) c =
    if not (is_state c.state config)
    then (c, some unexpected_state)
    else elim (parse_uint value 32) [
      | none ↦ (c, some bad_number)
      | some v ↦ (if is_video word then record c { vssrc = v } else record c { assrc = v }, none)
    ]
handle_ssrc _ c =
    (c, some (if not (is_state c.state config) then unexpected_state else unexpected_value))

-- net.IP.To4 where it is not nil, and the address itself otherwise.
unfoldable pub to4 : Text → Text
to4 ip =
    if length ip == 16
      && text_eq (take 12 ip) (0 ∷ 0 ∷ 0 ∷ 0 ∷ 0 ∷ 0 ∷ 0 ∷ 0 ∷ 0 ∷ 0 ∷ 255 ∷ 255 ∷ [])
    then drop 12 ip
    else ip

-- The keys of a sender: its address, and its address behind each SSRC.
unfoldable pub hash_keys : Text → ℕ → ℕ → List Text
unfolding to4
hash_keys ip vssrc assrc = let ip' = to4 ip in ip' ∷ (be32 assrc ++ ip') ∷ (be32 vssrc ++ ip') ∷ []

abbrev pub is_missing : Conn → Bool
is_missing c =
    not c.video
    || not c.audio
    || text_eq c.vcodec []
    || text_eq c.acodec []
    || c.vpayload == 0
    || c.apayload == 0
    || c.vssrc == 0
    || c.assrc == 0

abbrev pub deframer_of : ℕ → ℕ → ℕ → Parser → Deframer
deframer_of ssrc payload_type clock_rate parser = record {
  ssrc = ssrc;
  payload_type = payload_type;
  clock_rate = clock_rate;
  parser = parser;
  base_ts = 0;
  last_ts = 0;
  last_seq = 0;
}

abbrev pub session_of : Peer → Conn → Session
session_of peer c = record {
  auth = c.auth;
  keys = hash_keys peer.ip c.vssrc c.assrc;
  deframers = deframer_of c.vssrc c.vpayload 90000 (h264 new_h264) ∷ [];
}

abbrev pub listen_port : Peer → ℕ
listen_port peer =
    if peer.rtp_advertise_port == 0 then peer.socket_port else peer.rtp_advertise_port

-- handleLive. The state moves before the parameters are looked at.
unfoldable pub handle_live : Peer → Round → Conn → Handled
handle_live peer r c =
    if not (is_state c.state config)
    then (c, some unexpected_state)
    else let l = record c { state = live } in
      if is_missing c
      then (l, some missing_parameter)
      else if not (text_eq c.vcodec (codes "H264"))
      then (l, some unsupported_video_codec)
      else if not (text_eq c.acodec (codes "OPUS"))
      then (l, some unsupported_audio_codec)
      else write r (live_reply (listen_port peer))
          (record l { sessions = c.sessions ++ session_of peer c ∷ [] })
