-- ===== src/Rtsp/State.antt =====
-- sinks/rtsp/server.go and handler.go: the state of a connection of the RTSP server (Conn), and
-- what one of its requests asks of the outside. What comes from other packages stands in the
-- request: whether url.Parse takes the URL, what Server.Source answers, the number of rand.Uint32
-- and whether the response can be written. A response is the values that WriteResponse formats.
use gunk.Base.{ℕ, Bool, false, Option, none, List, [], Text}
use gunk.Base.Int.{ℤ}

-- The types of streams that handleDescribe tells apart.
pub data Stream : Type 0 where
  h264 : Stream
  opus : Stream
  unsupported : Stream

-- SourceFunc and demux.Streams.
pub data Source : Type 0 where
  streams : List Stream → Source
  not_found : Source
  fails : Source

-- net.UDPAddr
pub record UdpAddr : Type 0 where
  pub ip : Text
  pub port : ℤ

-- track, with the address of its framer.
pub record Track : Type 0 where
  pub codec : Stream
  pub addr : Option UdpAddr

pub data Header : Type 0 where
  public_methods : Header
  content_base : Text → Header
  content_sdp : Header
  transport : Text → ℕ → ℕ → Header
  session : ℕ → Header

pub record Response : Type 0 where
  pub cseq : Text
  pub code : ℕ
  pub headers : List Header
  pub body : List Stream

-- A request as it is read, and what the other packages do about it.
pub record Input : Type 0 where
  pub line : Text
  pub cseq : Text
  pub transport_value : Text
  pub url_ok : Bool
  pub answer : Source
  pub random : ℕ
  pub writes : Bool

pub data Read : Type 0 where
  reads : Input → Read
  read_fails : Read

pub data Error : Type 0 where
  reading : Error
  bad_line : Error
  bad_url : Error
  writing : Error
  handling : Error

-- Conn: with the responses that were written, whether `cancel` was called and how many goroutines
-- of handlePlay were started.
pub record Conn : Type 0 where
  pub ssrc : ℕ
  pub tracks : List (Option Track)  -- `none` is a nil track
  pub dest_addr : Option UdpAddr
  pub cancelled : Bool
  pub players : ℕ
  pub responses : List Response

abbrev pub new_conn : Conn
new_conn = record {
  ssrc = 0;
  tracks = [];
  dest_addr = none;
  cancelled = false;
  players = 0;
  responses = [];
}
