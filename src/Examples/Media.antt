-- ===== src/Examples/Media.antt =====
-- The deframer and the reader of media, at concrete inputs.
use gunk.Base.{ℕ, ◌≡◌, ◌^◌, refl, false, Option, none, some, List, [], ◌∷◌, Text, arith}
use gunk.Ftl.Deframer.{
  H264Parser, new_h264, parse_frame, ok, Result, Packet, plain_packet, Deframer, RtpPacket,
  null_parser, deframe, returned, parse_payload, advance_base,
}
use gunk.Ticks.{from_ts}
use gunk.Ftl.Deframer.Clock.{deframe-Tracks}
use gunk.Ftl.Deframer.Fragments.{feed, fragments, feed-fragments}
use gunk.Ftl.Deframer.Aggregates.{Unit2, aggregate, packets_of, parse_frame-aggregate}
use gunk.Ftl.Deframer.Returns.{IsCalm, parse_frame-IsRegular}
use gunk.Ftl.Reader.{Reader, datagram, offer}
use gunk.Ftl.Reader.Bursts.{reads, reads_burst}

-- An IDR slice in three fragments.
feed-fragments_example :
    feed 2 new_h264 (fragments 0x65 (1 ∷ 2 ∷ []) ((3 ∷ []) ∷ []) (4 ∷ [])) []
    ≡ some (new_h264, ok (plain_packet 0x65 (0x65 ∷ 1 ∷ 2 ∷ 3 ∷ 4 ∷ []) ∷ []))
feed-fragments_example =
    feed-fragments 0 new_h264 0x65 (1 ∷ 2 ∷ []) ((3 ∷ []) ∷ []) (4 ∷ []) (omega arith)
      (omega arith, omega arith, omega arith, omega arith) (omega arith)

abbrev units : List Unit2
units =
    record { octet = 0x65; second = 1; rest = [] }
    ∷ record { octet = 0x41; second = 2; rest = 3 ∷ [] }
    ∷ []

parse_frame-aggregate_example :
    parse_frame 2 new_h264 (24 ∷ aggregate units) ≡ some (new_h264, ok (packets_of units))
parse_frame-aggregate_example =
    parse_frame-aggregate 0 new_h264 24 (record { octet = 0x65; second = 1; rest = [] })
      (record { octet = 0x41; second = 2; rest = 3 ∷ [] } ∷ []) refl
      (
        ((omega arith, omega arith, omega arith, omega arith), omega arith),
        (((omega arith, omega arith, omega arith, omega arith), omega arith), tt),
      )

parse_frame-IsRegular_example :
    (q : H264Parser) × (out : Result (List Packet)) × (parse_frame 3 new_h264 (0x65 ∷ 1 ∷ 2 ∷ [])
      ≡ some (q, out))
    × IsCalm q.fbuf
parse_frame-IsRegular_example =
    parse_frame-IsRegular 0 new_h264 (0x65 ∷ 1 ∷ 2 ∷ []) (ground arith) tt

-- A deframer of which the packets are handed on, at 90 kHz.
abbrev deframer : ℕ → ℕ → Deframer
deframer base last = record {
  ssrc = 1;
  payload_type = 96;
  clock_rate = 90000;
  parser = null_parser;
  base_ts = base;
  last_ts = last;
  last_seq = 4;
}

abbrev rtp_at : ℕ → RtpPacket
rtp_at timestamp = record {
  ssrc = 1;
  payload_type = 96;
  sequence_number = 5;
  timestamp = timestamp;
  payload = 7 ∷ [];
}

-- The clock wraps between these packets.
deframe-Tracks_example :
    deframe 1 (deframer 0 4294960000) (rtp_at 704)
    ≡ returned (
      record (deframer (2 ^ 32) 704) { last_seq = 5 },
      ok (record { idx = 0; is_keyframe = false; time = 47721866666666; body = 7 ∷ [] } ∷ []),
    )
unfolding parse_payload
deframe-Tracks_example =
    deframe-Tracks 1 (deframer 0 4294960000) (rtp_at 704) 4294960000 4294968000 null_parser
      (ok (record { idx = 0; is_keyframe = false; time = 0; body = 7 ∷ [] } ∷ [])) (refl, refl)
      (omega arith) (omega arith) (omega arith) (omega arith) refl refl

-- Every datagram is one RTP packet at time 9.
abbrev at_nine : Text → Option RtpPacket
at_nine d = some (record (rtp_at 9) { payload = d })

abbrev reader : Reader ℕ
reader = record { deframers = deframer 0 0 ∷ []; streams = none; saved = [] }

abbrev nine : Packet
nine = record { idx = 0; is_keyframe = false; time = 100000; body = 7 ∷ [] }

reads_burst_example :
    reads at_nine 1 1 reader (datagram (7 ∷ []) ∷ [])
    ≡ some (
      nine ∷ [],
      record reader { deframers = record (deframer 0 9) { last_seq = 5 } ∷ []; saved = [] },
      [],
    )
unfolding offer deframe from_ts advance_base parse_payload
reads_burst_example =
    reads_burst at_nine 1 reader (7 ∷ []) [] (rtp_at 9)
      (record (deframer 0 9) { last_seq = 5 } ∷ []) nine [] refl refl refl
