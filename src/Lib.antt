-- ===== src/Lib.antt =====
-- gunk: a server for live video. A publisher sends a stream by FTL (or RTMP), and viewers get it by
-- HLS, MPEG-TS, WebRTC or RTSP. This library models the server's own logic, from the bytes of an FTL
-- connection to what the players of a channel are given.
--
-- How the parts interact. An FTL client opens a TCP connection (ingest/ftl/ftl.go), authenticates
-- with an HMAC that model/channel_auth.go checks, gives its parameters and goes live
-- (ingest/ftl/handler.go). The connection then registers its address and SSRCs with the server's UDP
-- socket (ingest/ftl/rtp.go), whose packets a reader takes from a channel and gives to a deframer
-- (ingest/ftl/deframing.go). Publish (ingest/publish.go) reads the media, puts the stream on the
-- channel of its name (ingest/manager.go) and takes it off at the end; ingest/play.go and the RTSP
-- server (sinks/rtsp) look the channel up and play it, sinks/playrtc to a browser over WebRTC and
-- sinks/grabber as thumbnails. What the manager announces goes to Discord and to the websockets of
-- the HTTP server (web), at which users log in through Discord and define their channels.
--
-- Which file models which part:
--   Ticks      internal/math.go: ToTS is to_ts, FromTS is from_ts; `none` is the panic of Div64.
--   Avcc       h264util/h264.go: NALUToAVCC, WriteAnnexB, WriteAnnexBPacket.
--   Start      main.go, the checks of uiRoutes of web/ui.go, SetWebhook of web/discord_api.go and
--              SetOauth of web/oauth.go: from the environment to a server that runs, or the message
--              with which it stops.
--   Model      model/channel_auth.go: findChannel, VerifyRTMP, VerifyFTL. The row that the database
--              gives, the JSON decoder and HMAC-SHA512 are parameters.
--   Database   model/user.go and the query of findChannel, on the tables of users and channel_defs.
--   Database.Thumbs   model/thumbs.go and channel_info.go: the table of thumbnails.
--   Ftl.Words      the text functions of Go's library that the FTL handlers call.
--   Ftl.State      ingest/ftl/ftl.go: Conn, and what one round of the loop finds outside.
--   Ftl.Handlers   ingest/ftl/handler.go: handleHMAC is handle_hmac, and so on; what handleLive hands
--              to Publish and to the receiver table is a Session.
--   Ftl.Serve      ingest/ftl/ftl.go: serve, over a list of rounds.
--   Ftl.Receivers  ingest/ftl/rtp.go: serveRTP is receive; addReceiver, delReceiver.
--   Ftl.Reader     ingest/ftl/rtp.go: the rtpReader; pion's Unmarshal is a parameter.
--   Ftl.Deframer   ingest/ftl/deframing.go: Deframe, the two parsers.
--   Ingest.Channel ingest/manager.go and publish.go: one channel; each method is one function.
--   Ingest.Rtmp    ingest/irtmp/rtmp.go: handlePublish.
--   Ingest.Copy    ingest/publish.go and play.go: the two loops copyStream.
--   Ingest.Manager ingest/manager.go, publish.go and play.go: the map of channels, Publish as its
--              beginning, its thumbnails and its end, Cleanup, and the Serve functions up to the
--              source that they play.
--   Ingest.Publish ingest/publish.go: one call of Publish with its goroutines, step by step.
--   Opus       transcode/opus/opus.go: PacketDuration. Opus.Convert: Convert's header and its
--              two loops. Opus.Transcode: the whole of Convert, with ffmpeg.
--   Rtsp.State, Rtsp.Server   sinks/rtsp/server.go and handler.go: a connection of the RTSP server.
--   Rtsp.Framing   sinks/rtsp/framing.go: the framer.
--   Rtsp.Packets   sinks/rtsp/framing.go: the two WritePacket functions.
--   Rtc.Offer  sinks/playrtc/rtc.go: chooseCodec, on the attributes that pion's parser gives.
--   Rtc.Sender sinks/playrtc/rtc.go: HandleSDP, setupTracks and serve.
--   Thumbs     sinks/grabber/grabber.go: Grab and its loop.
--   Web.Listeners  web/ws.go: the hub of websockets, as events in any order.
--   Web.Session    web/ws.go: ServeHTTP and drainLoop, one websocket with its goroutines.
--   Web.Pages  web/channel_info.go, events.go and play.go: the list of channels, thumbnails, and the
--              answers of the players' addresses.
--   Web.Routes the paths that the routes of web/server.go take.
--   Web.Files  web/ui.go: the web client's files and the headers that they get.
--   Web.News   web/events.go and discord_api.go: PublishEvent and doWebhook.
--   Web.Cookies    web/secrets.go: setCookie and unseal.
--   Web.Login  web/oauth.go, discord_api.go and server.go: the OAuth handlers, lookupUser, checkAuth.
--   Web.Defs   web/channel_def.go and model/channel_def.go: the handlers of a user's channels, on the
--              table of their rows.
--   Base       what these share (Base.Group: errgroup, by its laws); Examples, the theorems at concrete inputs.
--
-- How the code is read. Stateful code passes its state on explicitly; errors are values; a run-time
-- panic is a value of its own. What the outside does, such as the lines of a client, the success of
-- a write, datagrams and timeouts, is an argument, and where its order matters an explicit list.
-- Objects of other packages, such as queues and HLS publishers, are numbers. Machine integers are
-- natural numbers below 2^w with their wrap-around written out. A byte slice is a list of bytes.
--
-- Fuel and bounds. ParseFrame calls itself, and parse_frame takes fuel: 3 nested calls are enough on
-- the payloads that are called regular below, and no fuel is enough on one of the others. The loop
-- over the units of an aggregate is bounded by the packet's length, since each round takes at least
-- two bytes. All other loops are structural, on the list of what they are given.
--
-- Not modelled: accepting connections, logging, the HLS and MPEG-TS muxers, the options of
-- ffmpeg, the SDP bodies and the RTP packetizer, and the routing of web,
-- which are glue around other packages; the web client in ui. The memory that the deframer's buffer
-- shares with the slices that it gives out is not modelled either. Nor is time: what the clock says
-- is an argument, and it does not run backwards. secretbox, base64, json, errgroup, pion, Discord
-- and Postgres are arguments, and what is relied on of them is said in each file.
--
-- Goroutines. Where several run at once, as in Publish, Convert, a websocket's ServeHTTP and the hub,
-- what each does next is an event, and the theorems hold for every list of events: an event of a
-- goroutine that has ended, or that it cannot take yet, changes nothing.
pub mod Base
pub mod Ticks
pub mod Avcc
pub mod Model
pub mod Database
pub mod Ftl
pub mod Ingest
pub mod Opus
pub mod Rtsp
pub mod Web
pub mod Rtc
pub mod Start
pub mod Thumbs
pub mod Examples
