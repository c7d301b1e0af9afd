-- ===== src/Ftl/Reader.antt =====
-- ingest/ftl/rtp.go: the rtpReader, which Publish reads media packets from. pion's Unmarshal and
-- joy4's codec data are parameters. What select finds in each round of the loop, the end of the
-- context, a closed channel or a datagram, is a list of inputs.
pub mod Bursts
pub mod Ready
use gunk.Base.{
  ℕ, zero, suc, ◌+◌, ◌%◌, ◌≡◌, Bool, true, false, not, ◌&&◌, ◌||◌, Option, none, some, List, [],
  ◌∷◌, map, ◌==◌, if◌then◌else◌, Text, length, get_elem?, set, replicate,
}
use gunk.Ftl.Deframer.{
  Packet, Error, eof, bad_rtp, bad_codec, timed_out, Result, ok, err, Run, returned, panicked,
  unfinished, Deframer, RtpPacket, Parser, h264, null_parser, H264Parser, deframe,
}

pub data Input : Type 0 where
  done : Input
  closed : Input
  datagram : Text → Input

-- `packets[j].Idx = int8(i)`
abbrev pub tag : ℕ → List Packet → List Packet
tag i = map (λ (p : Packet). record p { idx = i % 256 })

abbrev pub tag_result : ℕ → Result (List Packet) → Result (List Packet)
tag_result i (ok packets) = ok (tag i packets)
tag_result i (err e) = err e

-- A deframer's result, with the deframer put back in its place.
abbrev pub matched :
    ℕ
    → List Deframer
    → Run (Deframer × Result (List Packet))
    → Run (List Deframer × Result (List Packet))
matched i fs (returned (f, r)) = returned (f ∷ fs, tag_result i r)
matched i fs panicked = panicked
matched i fs unfinished = unfinished

abbrev pub behind :
    Deframer
    → Run (List Deframer × Result (List Packet))
    → Run (List Deframer × Result (List Packet))
behind f (returned (fs, r)) = returned (f ∷ fs, r)
behind f panicked = panicked
behind f unfinished = unfinished

abbrev pub is_for : Deframer → RtpPacket → Bool
is_for f rp = rp.ssrc == f.ssrc && rp.payload_type == f.payload_type

-- The inner loop: the first deframer of the packet's SSRC and payload type takes it. No packets
-- come out if there is none.
unfoldable pub offer :
    ℕ → ℕ → List Deframer → RtpPacket → Run (List Deframer × Result (List Packet))
offer fuel i [] rp = returned ([], ok [])
offer fuel i (f ∷ fs) rp =
    let rest = offer fuel (suc i) fs rp in
    if is_for f rp then matched i fs (deframe fuel f rp) else behind f rest

module _ {ℓ} (Codec : Type ℓ) where
  pub record Reader : Type ℓ where
    pub deframers : List Deframer
    pub streams : Option (List (Option Codec))
    pub saved : List Packet

  -- How a read ends: with a packet or an error, still waiting for input, or in a fault.
  pub data Reads : Type ℓ where
    packet : Packet → Reader → List Input → Reads
    failed : Error → Reader → List Input → Reads
    waits : Reader → Reads
    panics : Reads
    endless : Reads

module _ {ℓ} {Codec : Type ℓ} (unmarshal : Text → Option RtpPacket) where
  -- The packets of one datagram: the first is returned and the rest saved; none at all, and the
  -- loop goes on.
  abbrev pub polled :
      Reader Codec
      → List Input
      → (Reader Codec → Reads Codec)
      → Run (List Deframer × Result (List Packet))
      → Reads Codec
  polled r rest go panicked = panics
  polled r rest go unfinished = endless
  polled r rest go (returned (fs, err e)) = failed e (record r { deframers = fs }) rest
  polled r rest go (returned (fs, ok [])) = go (record r { deframers = fs })
  polled r rest go (returned (fs, ok (p ∷ ps))) =
      packet p (record r { deframers = fs; saved = ps }) rest

  -- The outer loop of readPacket.
  unfoldable pub poll : ℕ → Reader Codec → List Input → Reads Codec
  poll fuel r [] = waits r
  poll fuel r (done ∷ rest) = failed eof r rest
  poll fuel r (closed ∷ rest) = failed eof r rest
  poll fuel r (datagram d ∷ rest) =
      let go = λ (q : Reader Codec). poll fuel q rest in
      elim (unmarshal d) [
        | none ↦ failed bad_rtp r rest
        | some rp ↦ polled r rest go (offer fuel 0 r.deframers rp)
      ]

  -- readPacket
  unfoldable pub read_packet : ℕ → Reader Codec → List Input → Reads Codec
  read_packet fuel r inputs = elim r.saved [
    | [] ↦ poll fuel r inputs
    | p ∷ ps ↦ packet p (record r { saved = ps }) inputs
  ]

module _ {ℓ} {Codec : Type ℓ} (unmarshal : Text → Option RtpPacket)
    (new_codec : Text → Text → Option Codec) (info : Codec) where
  -- Parser.CodecData: nil for H.264 until the SPS and the PPS are there.
  abbrev pub codec_data : Parser → Result (Option Codec)
  codec_data null_parser = ok (some info)
  codec_data (h264 p) = elim p.sps [
    | none ↦ ok none
    | some sps ↦ elim p.pps [
      | none ↦ ok none
      | some pps ↦ elim (new_codec sps pps) [ none ↦ err bad_codec | some cd ↦ ok (some cd) ]
    ]
  ]

  abbrev pub all_ready : List (Option Codec) → Bool
  all_ready [] = true
  all_ready (none ∷ _) = false
  all_ready (some _ ∷ cs) = all_ready cs

  -- A round of Streams gives the streams, an error, or the state to go on with.
  pub data Found : Type ℓ where
    ready : Reader Codec → List Input → List (Option Codec) → Found
    gives_up : Error → Reader Codec → List Input → Found
    hangs : Reader Codec → Found
    crashes : Found
    spins : Found

  -- The stream's codec data is stored, unless it is nil.
  abbrev pub note_codec : ℕ → Option Codec → List (Option Codec) → List (Option Codec)
  note_codec i none streams = streams
  note_codec i (some cd) streams = set streams i (some cd)

  abbrev pub on_codec :
      Reader Codec
      → List Input
      → ℕ
      → List (Option Codec)
      → (List (Option Codec) → Found)
      → Result (Option Codec)
      → Found
  on_codec r rest i streams go (err e) = gives_up e r rest
  on_codec r rest i streams go (ok cd) =
      let known = note_codec i cd streams in
      if all_ready known then ready (record r { streams = some known }) rest known else go known

  -- After a packet of deframer i: `r.deframers[i]` panics out of range.
  abbrev pub noted :
      Reader Codec
      → List Input
      → ℕ
      → List (Option Codec)
      → (List (Option Codec) → Found)
      → Option Deframer
      → Found
  noted r rest i streams go none = crashes
  noted r rest i streams go (some f) = on_codec r rest i streams go (codec_data f.parser)

  -- The loop of Streams. Each entry says whether the context has ended at the head of a round.
  unfoldable pub find_streams :
      ℕ → List Bool → Reader Codec → List Input → List (Option Codec) → Found
  find_streams fuel [] r inputs streams = hangs r
  find_streams fuel (true ∷ _) r inputs streams = gives_up timed_out r inputs
  find_streams fuel (false ∷ rounds) r inputs streams =
      let go = λ (q : Reader Codec) (rest : List Input) (known : List (Option Codec)).
        find_streams fuel rounds q rest known in
      elim (read_packet unmarshal fuel r inputs) [
        | failed e q rest ↦ gives_up e q rest
        | waits q ↦ hangs q
        | panics ↦ crashes
        | endless ↦ spins
        | packet p q rest ↦
            noted q rest p.idx streams (λ known. go q rest known) (get_elem? q.deframers p.idx)
      ]

  -- Streams: the streams that were found before are returned at once.
  unfoldable pub streams_of : ℕ → List Bool → Reader Codec → List Input → Found
  streams_of fuel rounds r inputs = elim r.streams [
    | some streams ↦ ready r inputs streams
    | none ↦ find_streams fuel rounds r inputs (replicate (length r.deframers) none)
  ]

  abbrev pub after_streams : ℕ → Found → Reads Codec
  after_streams fuel (ready r rest _) = read_packet unmarshal fuel r rest
  after_streams fuel (gives_up e r rest) = failed e r rest
  after_streams fuel (hangs r) = waits r
  after_streams fuel crashes = panics
  after_streams fuel spins = endless

  -- ReadPacket
  unfoldable pub read : ℕ → List Bool → Reader Codec → List Input → Reads Codec
  read fuel rounds r inputs = elim r.streams [
    | some _ ↦ read_packet unmarshal fuel r inputs
    | none ↦ after_streams fuel (streams_of fuel rounds r inputs)
  ]
