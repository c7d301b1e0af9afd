-- ===== src/Ftl/State.antt =====
-- ingest/ftl/ftl.go: the state of an FTL control connection (Conn), and what one round of its loop
-- asks of the outside: the clock, the socket, the random generator, CheckUser.
use gunk.Base.{ℕ, Bool, false, Option, none, some, List, [], ◌∷◌, ◌++◌, if◌then◌else◌, Text}
use gunk.Model.{ChannelAuth, no_auth}
use gunk.Model
use gunk.Ftl.Deframer.{Deframer}

pub data ConnState : Type 0 where
  new unauth config live : ConnState

-- The order of the states: `c.state < stateConfig` and `c.state > stateUnauth` compare ranks.
abbrev pub rank : ConnState → ℕ
rank new = 0
rank unauth = 1
rank config = 2
rank live = 3

-- The lines that are written, the text of each behind it.
pub data Reply : Type 0 where
  nonce_reply : Text → Reply  -- "200 %x\n"
  ok_reply : Reply  -- "200 OK.\n"
  pong : Reply  -- "201 PONG.\n"
  live_reply : ℕ → Reply  -- "200 OK. Use UDP port %d\n"
  bad_request : Reply  -- "400 Bad Request.\n"

-- What handleLive hands to Publish and to the receiver table. The audio deframer is built and then
-- left out of the reader (the FIXME of the source).
pub record Session : Type 0 where
  pub auth : ChannelAuth
  pub keys : List Text
  pub deframers : List Deframer

pub record Conn : Type 0 where
  pub state : ConnState
  pub nonce : Option Text
  pub auth : ChannelAuth
  pub video : Bool
  pub audio : Bool
  pub vcodec : Text
  pub acodec : Text
  pub vpayload : ℕ  -- uint8
  pub apayload : ℕ  -- uint8
  pub vssrc : ℕ  -- uint32
  pub assrc : ℕ  -- uint32
  pub out : List Reply
  pub sessions : List Session

abbrev pub new_conn : Conn
new_conn = record {
  state = new;
  nonce = none;
  auth = no_auth;
  video = false;
  audio = false;
  vcodec = [];
  acodec = [];
  vpayload = 0;
  apayload = 0;
  vssrc = 0;
  assrc = 0;
  out = [];
  sessions = [];
}

pub data Error : Type 0 where
  auth_deadline command_timeout read_failed write_failed rand_failed : Error
  unexpected_hmac invalid_connect_line invalid_state bad_digest : Error
  rejected : Model.Error → Error
  unexpected_state unexpected_value bad_number missing_parameter : Error
  unsupported_video_codec unsupported_audio_codec unsupported_version unexpected_command : Error

-- A line, a timeout of the read deadline, or another read error.
pub data Read : Type 0 where
  got : Text → Read
  timeout : Read
  failed : Read

-- What one round of the loop finds outside.
pub record Round : Type 0 where
  pub cancelled : Bool  -- c.ctx.Err() != nil
  pub past_deadline : Bool  -- time.Now().After(authBy)
  pub line : Read
  pub random : Text  -- the 64 bytes of the nonce after rand.Reader was read
  pub random_ok : Bool
  pub write_ok : Bool  -- the buffered writer takes the reply
  pub flush_ok : Bool

-- What does not change while the connection lasts.
pub record Peer : Type 0 where
  pub ip : Text  -- the bytes of the remote net.IP, 4 or 16
  pub rtp_advertise_port : ℕ
  pub socket_port : ℕ
  pub check_user : Text → Text → Text → ChannelAuth × Option Model.Error

abbrev pub Handled : Type 0
Handled = Conn × Option Error

-- A reply is written, or the write fails.
abbrev pub write : Round → Reply → Conn → Handled
write r reply c =
    if r.write_ok then (record c { out = c.out ++ reply ∷ [] }, none) else (c, some write_failed)
