-- ===== src/Examples/Rtsp.antt =====
-- The RTSP server, the Opus durations and the clocks, at concrete inputs.
use gunk.Base.{ℕ, ◌≡◌, ◌+◌, ◌%◌, ◌^◌, refl, true, some, [], ◌∷◌, ◌++◌, Text, codes, take, arith}
use gunk.Base.Int.{ℤ, pos}
use gunk.Rtsp.Framing.{all_samples, sum, samples_follow}
use gunk.Rtsp.State.{h264, opus, streams, Input, reads, new_conn}
use gunk.Rtsp.Server.{
  serve, play_packet, sends, panics, handle_describe, handle_setup, handle_play, all_supported,
  dest_port, port_range,
}
use gunk.Rtsp.Server.Responses.{answered, serve-answered}
use gunk.Rtsp.Server.Playing.{SetsUp, CanPlay, describe-setup-play, setup_first}

samples_follow_example :
    (90000 + sum (all_samples (record { ts = 90000; got = true }) (93000 ∷ 91500 ∷ 96000 ∷ [])))
      % 2 ^ 32
    ≡ 96000
samples_follow_example =
    samples_follow (record { ts = 90000; got = true }) (93000 ∷ 91500 ∷ 96000 ∷ []) refl
      (omega arith) (omega arith, (omega arith, (omega arith, tt)))

abbrev request : Text → Text → Input
request cseq line = record {
  line = line;
  cseq = cseq;
  transport_value = codes "RTP/AVP;unicast;client_port=5000-5001";
  url_ok = true;
  answer = streams (h264 ∷ opus ∷ []);
  random = 77;
  writes = true;
}

-- strconv.Atoi on the port of the requests above.
abbrev port_5000 : Text → ℤ
port_5000 digits = pos 5000

abbrev server_ip : Text
server_ip = 10 ∷ 0 ∷ 0 ∷ 9 ∷ []

abbrev setup : Input
setup = request (codes "2") (codes "SETUP rtsp://h/show RTSP/1.0")

abbrev describe : Input
describe = request (codes "1") (codes "DESCRIBE rtsp://h/show RTSP/1.0")

abbrev play : Input
play = request (codes "3") (codes "PLAY rtsp://h/show RTSP/1.0")

setup-SetsUp : SetsUp port_5000 setup
unfolding port_range dest_port
setup-SetsUp = record { named = refl; nonzero = refl; answers = refl }

play-CanPlay : CanPlay play
play-CanPlay = record { ss = h264 ∷ opus ∷ []; found = refl; answers = refl }

describe-setup-play_example :
    play_packet 0 1
      (handle_play play
        (handle_setup port_5000 8554 server_ip setup
          (handle_describe describe
            (codes "rtsp://h/show")
            (streams (h264 ∷ opus ∷ []))
            new_conn).0).0).0
    ≡ sends opus (some (record { ip = server_ip; port = pos 5000 }))
unfolding all_supported dest_port handle_setup handle_describe
describe-setup-play_example =
    (describe-setup-play port_5000 8554 server_ip describe setup play (codes "rtsp://h/show")
      (h264 ∷ opus ∷ []) new_conn 1 opus refl refl refl setup-SetsUp play-CanPlay refl).1

setup_first_example :
    play_packet 0 0 (handle_play play (handle_setup port_5000 8554 server_ip setup new_conn).0).0
    ≡ panics
unfolding all_supported handle_setup
setup_first_example =
    (setup_first port_5000 8554 server_ip describe setup play (codes "rtsp://h/show")
      (h264 ∷ opus ∷ []) 0 h264 refl refl setup-SetsUp play-CanPlay refl).1

serve-answered_example :
    (k : ℕ) × (answered
        (serve port_5000 8554 server_ip (reads describe ∷ reads setup ∷ []) new_conn)
      ≡ answered new_conn ++ take k (codes "1" ∷ codes "2" ∷ []))
serve-answered_example =
    serve-answered port_5000 8554 server_ip (reads describe ∷ reads setup ∷ []) new_conn
