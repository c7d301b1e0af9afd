-- ===== src/Rtsp/Packets.antt =====
-- sinks/rtsp/framing.go: RTPFramer.WritePacket and TrackFramer.WritePacket. The packetizer of
-- pion/rtp, the marshalling of its packets, and WriteSample of pion/webrtc are parameters; which
-- writes to the socket succeed is a list, one entry for each write.
use gunk.Base.{
  ℕ, suc, leb, length, take, ◌≡◌, ap, Bool, true, false, Option, none, some, List, [], ◌∷◌,
  if◌then◌else◌, Text, map, arith,
}
use gunk.Rtsp.Framing.{Framer, CodecData, Packet, framed}

pub data SendOutcome : Type 0 where
  all_sent : SendOutcome
  marshal_error : SendOutcome
  socket_error : SendOutcome
  time_panics : SendOutcome

pub record Sent : Type 0 where
  pub datagrams : List Text
  pub outcome : SendOutcome

abbrev pub send_ends : SendOutcome → Sent
send_ends o = record { datagrams = []; outcome = o }

abbrev pub sent : Text → Sent → Sent
sent d s = record s { datagrams = d ∷ s.datagrams }

module _ {P : Type 0} (marshal : P → Option Text) where
  -- The loop over the packets. A write that is not in the list fails.
  unfoldable pub send_all : List P → List Bool → Sent
  send_all [] writes = send_ends all_sent
  send_all (p ∷ ps) [] = elim (marshal p) [
    | none ↦ send_ends marshal_error
    | some d ↦ send_ends socket_error
  ]
  send_all (p ∷ ps) (ok ∷ writes) =
      let rest = send_all ps writes in
      elim (marshal p) [
        | none ↦ send_ends marshal_error
        | some d ↦ if ok then sent d rest else send_ends socket_error
      ]

  module _ (split_nalus : Text → List Text) (packetize : Text → ℕ → List P) where
    abbrev pub send_framed : Framer → Option (Framer × Text × ℕ) → List Bool → Framer × Sent
    send_framed f none writes = (f, send_ends time_panics)
    send_framed f (some (next, payload, samples)) writes =
        (next, send_all (packetize payload samples) writes)

    -- RTPFramer.WritePacket
    unfoldable pub write_packet : Framer → Packet → CodecData → ℕ → List Bool → Framer × Sent
    unfolding framed send_all
    write_packet f pkt info rate writes = send_framed f (framed split_nalus f pkt info rate) writes

-- TrackFramer.WritePacket: the sample that is given to the track.
unfoldable pub write_sample :
    (Text → List Text) → Framer → Packet → CodecData → ℕ → Option (Framer × Text × ℕ)
unfolding framed
write_sample split_nalus f pkt info rate = framed split_nalus f pkt info rate

-- How many writes succeed before the first that does not.
abbrev pub leading : List Bool → ℕ
leading [] = 0
leading (ok ∷ writes) = let n = leading writes in if ok then suc n else 0

module _ {P : Type 0} (marshal : P → Option Text) (bytes : P → Text)
    (marshals : (p : P) → marshal p ≡ some (bytes p)) where
  send_all_lem :
      (ps : List P) (writes : List Bool)
      → send_all marshal ps writes ≡ record {
        datagrams = map bytes (take (leading writes) ps);
        outcome = if leb (length ps) (leading writes) then all_sent else socket_error;
      }
  unfolding send_all
  send_all_lem [] [] = ground arith
  send_all_lem [] (true ∷ writes) = ground arith
  send_all_lem [] (false ∷ writes) = ground arith
  send_all_lem (p ∷ ps) [] = ground (arith, marshals p)
  send_all_lem (p ∷ ps) (true ∷ writes) = ground (arith, marshals p, send_all_lem ps writes)
  send_all_lem (p ∷ ps) (false ∷ writes) = ground (arith, marshals p)

  -- If the packetizer's packets can be marshalled, one packet of a stream becomes exactly the
  -- datagrams of the packets before the first write that fails, in their order, and there is an
  -- error exactly if one of them is not written; the clock moves on either way.
  pub write_packet_sends :
      (split_nalus : Text → List Text) (packetize : Text → ℕ → List P) (f next : Framer)
      (pkt : Packet) (info : CodecData) (rate : ℕ) (payload : Text) (samples : ℕ)
      (writes : List Bool)
      → framed split_nalus f pkt info rate ≡ some (next, payload, samples)
      → write_packet marshal split_nalus packetize f pkt info rate writes ≡ (
        next,
        record {
          datagrams = map bytes (take (leading writes) (packetize payload samples));
          outcome =
              if leb (length (packetize payload samples)) (leading writes)
              then all_sent
              else socket_error;
        },
      )
  unfolding write_packet
  write_packet_sends split_nalus packetize f next pkt info rate payload samples writes e =
      rw e (ap (λ s. (next, s)) (send_all_lem (packetize payload samples) writes))
