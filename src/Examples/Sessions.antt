-- ===== src/Examples/Sessions.antt =====
-- FTL connections, their authentication and the receiver table, at concrete inputs.
use gunk.Base.{
  ◌≡◌, ◌≤◌, ◌↔◌, refl, inl, true, false, Option, none, some, List, [], ◌∷◌, ◌++◌, if◌then◌else◌,
  Text, codes, text_eq, be32, All, length, arith,
}
use gunk.Base.Dict.{get, put}
use gunk.Model.{
  ChannelAuth, Column, Row, Scan, row, no_rows, Token, verify_ftl, user_not_found, verify_ftl_exact,
  verify_ftl_rejects, Readable, by_ftl_id, by_name, path_base, verify_rtmp, no_auth,
}
use gunk.Model
use gunk.Ingest.Rtmp.{handle_publish, of_row, handle_publish-verified}
use gunk.Ftl.State.{Conn, new_conn, Round, Peer, got, config}
use gunk.Ftl.Handlers.{hash_keys, to4}
use gunk.Ftl.Serve.{serve}
use gunk.Ftl.Serve.Auth.{Accepted, serve_sessions}
use gunk.Ftl.Serve.Setup.{IsSetUp, serve-IsSetUp}
use gunk.Ftl.Receivers.{
  Server, registers, step, receive, delivered, with_waiting, add_receiver, del_receiver,
}
use gunk.Ftl.Receivers.Table.{get-del_receiver}
use gunk.Ftl.Receivers.Delivery.{IsMedia, receive-registered, receive-other_host}

-- The database and HMAC of the examples: channel 1 alone, and the nonce as its own digest.
abbrev show_row : Row
show_row = record {
  user_id = codes "7";
  name = codes "show";
  key = codes "k";
  blob = none;
  announce = true;
}

abbrev show_auth : ChannelAuth
show_auth = record { user_id = codes "7"; name = codes "show"; announce = true; token = none }

abbrev query_one : Column → Text → Scan
query_one column value = if text_eq value (codes "1") then row show_row else no_rows

abbrev no_tokens : Text → Option (Option Token)
no_tokens b = none

abbrev nonce_itself : Text → Text → Text
nonce_itself key nonce = key ++ nonce

handle_publish-verified_example :
    ((handle_publish
        (verify_rtmp query_one no_tokens nonce_itself)
        (codes "/live/1")
        (codes "k")).published
      ≡ some show_auth)
    ↔ ((r : Row) × Readable query_one no_tokens nonce_itself by_name (path_base (codes "/live/1")) r
        × (codes "k" ≡ r.key)
        × (show_auth ≡ of_row query_one no_tokens nonce_itself r))
handle_publish-verified_example =
    handle_publish-verified query_one no_tokens nonce_itself (codes "/live/1") (codes "k") show_auth

-- The CheckUser of the examples accepts the digest 0x6b.
abbrev check_6b : Text → Text → Text → ChannelAuth × Option Model.Error
check_6b id nonce digest =
    if text_eq digest (codes "k")
    then (record { user_id = codes "7"; name = codes "show"; announce = true; token = none }, none)
    else (no_auth, some user_not_found)

abbrev peer : Peer
peer = record {
  ip = 10 ∷ 0 ∷ 0 ∷ 9 ∷ [];
  rtp_advertise_port = 0;
  socket_port = 8084;
  check_user = check_6b;
}

abbrev line : Text → Round
line text = record {
  cancelled = false;
  past_deadline = false;
  line = got text;
  random = codes "r";
  random_ok = true;
  write_ok = true;
  flush_ok = true;
}

abbrev exchange : List Round
exchange =
    line (codes "HMAC")
    ∷ line (codes "CONNECT 1 $6b")
    ∷ line (codes "Video: true")
    ∷ line (codes "Audio: true")
    ∷ line (codes "VideoCodec: H264")
    ∷ line (codes "AudioCodec: OPUS")
    ∷ line (codes "VideoPayloadType: 96")
    ∷ line (codes "AudioPayloadType: 97")
    ∷ line (codes "VideoIngestSSRC: 1")
    ∷ line (codes "AudioIngestSSRC: 2")
    ∷ line (codes ".")
    ∷ []

serve_sessions_example :
    let c = (serve peer new_conn exchange).0 in
    All (λ s. Accepted peer exchange c.nonce s.auth) c.sessions × (length c.sessions ≤ 1)
serve_sessions_example = serve_sessions peer exchange

serve-IsSetUp_example : All (IsSetUp peer) (serve peer new_conn exchange).0.sessions
serve-IsSetUp_example = serve-IsSetUp peer exchange

configured : Conn
configured = record new_conn {
  state = config;
  video = true;
  audio = true;
  vcodec = codes "H264";
  acodec = codes "OPUS";
  vpayload = 96;
  apayload = 97;
  vssrc = 1;
  assrc = 2;
}

-- Two channels of one host, of which the second takes the first one's SSRCs over.
abbrev host : Text
host = 10 ∷ 0 ∷ 0 ∷ 9 ∷ []

get-del_receiver_example :
    get host (del_receiver (hash_keys host 1 2) 4 (add_receiver (hash_keys host 1 2) 4 [])) ≡ none
unfolding hash_keys to4 be32 add_receiver get put
get-del_receiver_example =
    get-del_receiver (hash_keys host 1 2) 4 (add_receiver (hash_keys host 1 2) 4 []) host

abbrev idle : Server
idle = record { receivers = []; waiting = λ ch. [] }

-- A datagram of SSRC 1.
abbrev media : Text
media = 0x80 ∷ 96 ∷ 0 ∷ 1 ∷ 0 ∷ 0 ∷ 0 ∷ 9 ∷ 0 ∷ 0 ∷ 0 ∷ 1 ∷ 0x65 ∷ 7 ∷ []

abbrev registered : Server
registered = step idle (registers (hash_keys host 1 2) 4)

abbrev media-IsMedia : IsMedia media
media-IsMedia = (omega arith, refl, omega arith)

receive-registered_example :
    receive registered host media ≡ (with_waiting registered 4 (media ∷ []), delivered 4)
unfolding be32
receive-registered_example = receive-registered idle host media 1 2 4 media-IsMedia (inl refl)

receive-other_host_example :
    (receive registered (10 ∷ 0 ∷ 0 ∷ 8 ∷ []) media).1
    ≡ (receive idle (10 ∷ 0 ∷ 0 ∷ 8 ∷ []) media).1
unfolding to4
receive-other_host_example =
    receive-other_host idle host (10 ∷ 0 ∷ 0 ∷ 8 ∷ []) media 1 2 4 (inl refl) (inl refl)
      (ground arith) media-IsMedia
