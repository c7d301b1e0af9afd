-- ===== src/Ftl/Reader/Bursts.antt =====
-- The packets of a datagram are read one by one, in order; datagrams of other senders are skipped.
use gunk.Base.{
  ℕ, zero, suc, ◌≡◌, refl, false, Option, none, some, List, [], ◌∷◌, arith, Text, length, All,
}
use gunk.Ftl.Deframer.{Packet, ok, returned, Deframer, RtpPacket}
use gunk.Ftl.Reader.{
  Input, datagram, offer, is_for, Reader, packet, failed, waits, panics, endless, poll, read_packet,
}

-- One read after the other, while packets come.
abbrev pub and_then {ℓ} :
    {Codec : Type ℓ}
    → Packet
    → Option (List Packet × Reader Codec × List Input)
    → Option (List Packet × Reader Codec × List Input)
and_then p none = none
and_then p (some (ps, r, inputs)) = some (p ∷ ps, r, inputs)

module _ {ℓ} {Codec : Type ℓ} (unmarshal : Text → Option RtpPacket) (fuel : ℕ) where
  pub reads : ℕ → Reader Codec → List Input → Option (List Packet × Reader Codec × List Input)
  reads zero r inputs = some ([], r, inputs)
  reads (suc n) r inputs = elim (read_packet unmarshal fuel r inputs) [
    | packet p q rest ↦ and_then p (reads n q rest)
    | failed _ _ _ ↦ none
    | waits _ ↦ none
    | panics ↦ none
    | endless ↦ none
  ]

  -- What was saved is read first, in order, before any input.
  drain :
      (ps : List Packet) (r : Reader Codec) (inputs : List Input)
      → r.saved ≡ ps
      → reads (length ps) r inputs ≡ some (ps, record r { saved = [] }, inputs)
  unfolding reads read_packet
  drain [] r inputs e = ground arith
  drain (p ∷ ps) r inputs e = ground (arith, drain ps (record r { saved = ps }) inputs refl)

  -- With nothing saved, as many reads as the next datagram gives packets return these packets in
  -- order, take no other input, and leave nothing saved.
  pub reads_burst :
      (r : Reader Codec) (d : Text) (rest : List Input) (rp : RtpPacket) (fs : List Deframer)
      (p : Packet) (ps : List Packet)
      → r.saved ≡ []
      → unmarshal d ≡ some rp
      → offer fuel 0 r.deframers rp ≡ returned (fs, ok (p ∷ ps))
      → reads (suc (length ps)) r (datagram d ∷ rest)
        ≡ some (p ∷ ps, record r { deframers = fs; saved = [] }, rest)
  unfolding reads read_packet poll
  reads_burst r d rest rp fs p ps empty parsed offered =
      ground (arith, drain ps (record r { deframers = fs; saved = ps }) rest refl)

-- No deframer is for the packet.
abbrev pub IsForeign : RtpPacket → List Deframer → Type 0
IsForeign rp = All (λ f. is_for f rp ≡ false)

offer-IsForeign :
    (fuel i : ℕ) (fs : List Deframer) (rp : RtpPacket)
    → IsForeign rp fs
    → offer fuel i fs rp ≡ returned (fs, ok [])
unfolding offer
offer-IsForeign fuel i [] rp foreign = refl
offer-IsForeign fuel i (f ∷ fs) rp foreign =
    ground (arith, offer-IsForeign fuel (suc i) fs rp foreign.1)

-- A datagram of an SSRC or payload type that no deframer is for is skipped, and changes nothing.
pub read_packet-IsForeign {ℓ} :
    {Codec : Type ℓ} (unmarshal : Text → Option RtpPacket) (fuel : ℕ) (r : Reader Codec) (d : Text)
    (rest : List Input) (rp : RtpPacket)
    → r.saved ≡ []
    → unmarshal d ≡ some rp
    → IsForeign rp r.deframers
    → read_packet unmarshal fuel r (datagram d ∷ rest) ≡ read_packet unmarshal fuel r rest
unfolding read_packet poll
read_packet-IsForeign unmarshal fuel r d rest rp empty parsed foreign =
    ground (arith, offer-IsForeign fuel 0 r.deframers rp foreign)
