-- ===== src/Ftl/Serve.antt =====
-- ingest/ftl/ftl.go: the command loop of an FTL connection (serve).
pub mod Keeps
pub mod Auth
pub mod Order
pub mod Setup
use gunk.Base.{
  ℕ, ◌+◌, ◌==◌, ◌≡◌, Bool, true, false, not, ◌&&◌, ◌||◌, Option, none, some, List, [], ◌∷◌, ◌++◌,
  ltb, if◌then◌else◌, Text, codes, text_eq, be32, length, take, drop,
}
use gunk.Ftl.Words.{fields}
use gunk.Ftl.State.{
  ConnState, new, unauth, config, live, rank, Reply, nonce_reply, ok_reply, pong, live_reply,
  bad_request, Session, Conn, Error, auth_deadline, command_timeout, read_failed, write_failed,
  rand_failed, unexpected_hmac, invalid_connect_line, invalid_state, bad_digest, rejected,
  unexpected_state, unexpected_value, bad_number, missing_parameter, unsupported_video_codec,
  unsupported_audio_codec, unsupported_version, unexpected_command, Read, got, timeout, failed,
  Round, Peer, Handled, write,
}
use gunk.Ftl.Handlers.{
  handle_hmac, handle_connect, handle_enable, handle_codec, handle_pt, handle_ssrc, handle_live,
}

-- The cases of the switch on words[0].
pub data Command : Type 0 where
  hmac connect disconnect ping protocol_version ignored : Command
  enable codec payload_type ssrc dot unknown : Command

unfoldable pub command_of : Text → Command
command_of w =
    if text_eq w (codes "HMAC")
    then hmac
    else if text_eq w (codes "CONNECT")
    then connect
    else if text_eq w (codes "DISCONNECT")
    then disconnect
    else if text_eq w (codes "PING")
    then ping
    else if text_eq w (codes "ProtocolVersion:")
    then protocol_version
    else if text_eq w (codes "VendorName:")
        || text_eq w (codes "VendorVersion:")
        || text_eq w (codes "VideoHeight:")
        || text_eq w (codes "VideoWidth:")
    then ignored
    else if text_eq w (codes "Video:") || text_eq w (codes "Audio:")
    then enable
    else if text_eq w (codes "VideoCodec:") || text_eq w (codes "AudioCodec:")
    then codec
    else if text_eq w (codes "VideoPayloadType:") || text_eq w (codes "AudioPayloadType:")
    then payload_type
    else if text_eq w (codes "VideoIngestSSRC:") || text_eq w (codes "AudioIngestSSRC:")
    then ssrc
    else if text_eq w (codes ".")
    then dot
    else unknown

-- How a round ends: the loop goes on, serve returns, or the handler panics.
pub data Status : Type 0 where
  go_on : Status
  stop : Option Error → Status
  panic : Status

-- badRequest, whose own error is dropped.
abbrev pub refuse : Round → Error → Conn → Conn × Status
refuse r e c = ((write r bad_request c).0, stop (some e))

-- What follows the switch.
abbrev pub finish : Round → Handled → Conn × Status
finish r (c, some e) = refuse r e c
finish r (c, none) = (c, if r.flush_ok then go_on else stop (some write_failed))

-- words[1] != "0.9", or no words[1].
abbrev pub is_bad_version : List Text → Bool
is_bad_version (_ ∷ version ∷ _) = not (text_eq version (codes "0.9"))
is_bad_version _ = true

unfoldable pub dispatch : Peer → Round → Command → List Text → Conn → Conn × Status
dispatch peer r hmac words c = finish r (handle_hmac r c)
dispatch peer r connect words c = finish r (handle_connect peer r words c)
dispatch peer r disconnect words c = ((write r ok_reply c).0, stop none)
dispatch peer r ping words c = finish r (write r pong c)
dispatch peer r protocol_version words c =
    if is_bad_version words then refuse r unsupported_version c else finish r (c, none)
dispatch peer r ignored words c = finish r (c, none)
dispatch peer r enable words c = finish r (handle_enable words c)
dispatch peer r codec words c = finish r (handle_codec words c)
dispatch peer r payload_type words c = finish r (handle_pt words c)
dispatch peer r ssrc words c = finish r (handle_ssrc words c)
dispatch peer r dot words c = finish r (handle_live peer r c)
dispatch peer r unknown words c = refuse r unexpected_command c

-- A line that is not empty. The index words[0] panics if the line holds only white space.
abbrev pub on_words : Peer → Round → List Text → Conn → Conn × Status
on_words peer r [] c = (c, panic)
on_words peer r (w ∷ ws) c = dispatch peer r (command_of w) (w ∷ ws) c

abbrev pub on_read : Peer → Round → Read → Conn → Conn × Status
on_read peer r timeout c = (c, stop (some command_timeout))
on_read peer r failed c = (c, stop (some read_failed))
on_read peer r (got []) c = (c, go_on)
on_read peer r (got (x ∷ xs)) c = on_words peer r (fields (x ∷ xs)) c

-- One round of the loop of serve.
unfoldable pub round : Peer → Conn → Round → Conn × Status
round peer c r =
    if r.cancelled
    then (c, stop none)
    else if ltb (rank c.state) 2 && r.past_deadline
    then (c, stop (some auth_deadline))
    else on_read peer r r.line c

-- serve, over the rounds that the outside gives; the loop still runs when they are used up.
unfoldable pub serve : Peer → Conn → List Round → Conn × Status
serve peer c [] = (c, go_on)
serve peer c (r ∷ rs) =
    let (c', s) = round peer c r in
    elim s [ go_on ↦ serve peer c' rs | stop e ↦ (c', stop e) | panic ↦ (c', panic) ]
