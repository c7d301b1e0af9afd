-- ===== src/Rtc/Sender/Delivery.antt =====
-- What a browser is sent, from its offer on.
use gunk.Base.{
  ℕ, zero, suc, ◌+◌, ◌%◌, ◌^◌, ◌<◌, ◌≡◌, ◌∙◌, ◌⊎◌, refl, sym, Bool-cases, ap, ◌&&◌, Bool, true,
  false, Option, none, some, List, [], ◌∷◌, ◌++◌, map, length, get_elem?, All, arith, Option-cases,
  inl, inr,
}
use gunk.Ingest.Copy.{packet, eof}
use gunk.Rtc.Offer.{Codec, Chosen, invalid, panics, chosen, choose_codec}
use gunk.Rtc.Sender.{
  Kind, Track, Given, kind_of, with_track, add_tracks, setup_tracks, Request, serves, with_codec,
  handle_sdp, await, connects, Round, Served, finished, still_connected, send, play, serve,
}

abbrev numbered : ℕ → Option Kind → Option Track
numbered n none = none
numbered n (some kind) = some (record { kind = kind; ssrc = n })

abbrev of_stream : Codec → ℕ → Option Given → Option Track
of_stream c n none = none
of_stream c n (some g) = numbered n (kind_of c g.stream)

-- The track of the stream with an index: of its codec, with the SSRC that follows the previous
-- ones.
abbrev pub track_for : Codec → ℕ → List Given → ℕ → Option Track
track_for c ssrc gs idx = of_stream c ((ssrc + idx) % 2 ^ 32) (get_elem? gs idx)

split_tracks :
    (c : Codec) (ssrc : ℕ) (g : Given) (ok : Bool) (rest : Option (List (Option Track)))
    (tracks : List (Option Track))
    → with_track (kind_of c g.stream) ssrc ok rest ≡ some tracks
    → (kind : Kind) × (kind_of c g.stream ≡ some kind)
      × (others : List (Option Track)) × (rest ≡ some others)
      × (tracks ≡ some (record { kind = kind; ssrc = ssrc }) ∷ others)
split_tracks c ssrc g ok rest tracks e = go (kind_of c g.stream) ok rest e
  where
    go :
        (k : Option Kind) (ok : Bool) (rest : Option (List (Option Track)))
        → with_track k ssrc ok rest ≡ some tracks
        → (kind : Kind) × (k ≡ some kind)
          × (others : List (Option Track)) × (rest ≡ some others)
          × (tracks ≡ some (record { kind = kind; ssrc = ssrc }) ∷ others)
    go none ok rest e = absurd (ground (arith, e))
    go (some kind) false rest e = absurd (ground (arith, e))
    go (some kind) true none e = absurd (ground (arith, e))
    go (some kind) true (some others) e = (kind, refl, others, refl, ground (arith, e))

next_ssrc : (ssrc idx : ℕ) → ((ssrc + 1) % 2 ^ 32 + idx) % 2 ^ 32 ≡ (ssrc + suc idx) % 2 ^ 32
next_ssrc ssrc idx = omega arith

first_ssrc : (ssrc : ℕ) → ssrc < 2 ^ 32 → (ssrc + 0) % 2 ^ 32 ≡ ssrc
first_ssrc ssrc small = omega arith

Made : Codec → ℕ → List Given → List (Option Track) → ℕ → Type 0
Made c ssrc gs tracks idx =
    (t : Track) × (get_elem? tracks idx ≡ some (some t)) × (track_for c ssrc gs idx ≡ some t)

Made-cons :
    (c : Codec) (ssrc : ℕ) (g : Given) (gs : List Given) (kind : Kind)
    (others : List (Option Track)) (idx : ℕ)
    → kind_of c g.stream ≡ some kind
    → ssrc < 2 ^ 32
    → ((i : ℕ) → i < length gs → Made c ((ssrc + 1) % 2 ^ 32) gs others i)
    → idx < suc (length gs)
    → Made c ssrc (g ∷ gs) (some (record { kind = kind; ssrc = ssrc }) ∷ others) idx
unfolding Made
Made-cons c ssrc g gs kind others zero is small ih lt =
    (record { kind = kind; ssrc = ssrc }, refl, rw (is, first_ssrc ssrc small) refl)
Made-cons c ssrc g gs kind others (suc i) is small ih lt =
    let (t, at, tr) = ih i (omega arith) in
    (t, at, ap (λ n. of_stream c n (get_elem? gs i)) (sym (next_ssrc ssrc i)) ∙ tr)

get_elem?-add_tracks :
    (c : Codec) (ssrc : ℕ) (gs : List Given) (tracks : List (Option Track)) (idx : ℕ)
    → add_tracks c ssrc gs ≡ some tracks
    → ssrc < 2 ^ 32
    → idx < length gs
    → Made c ssrc gs tracks idx
unfolding add_tracks
get_elem?-add_tracks c ssrc [] tracks idx e small lt = absurd (omega arith)
get_elem?-add_tracks c ssrc (g ∷ gs) tracks idx e small lt =
    let next = (ssrc + 1) % 2 ^ 32 in
    let (kind, is_kind, others, found, all) =
      split_tracks c ssrc g (g.made && g.added) (add_tracks c next gs) tracks e in
    rw all (
      Made-cons c ssrc g gs kind others idx is_kind small
        (λ i. get_elem?-add_tracks c next gs others i found (omega arith)) lt)

Opens : Request → List Given → List (Option Track) → Chosen → Type 0
Opens r gs tracks ch = (c : Codec) × (ch ≡ chosen c) × (add_tracks c r.random gs ≡ some tracks)

with_codec-Opens :
    (r : Request) (gs : List Given) (tracks : List (Option Track)) (ch : Chosen)
    → with_codec r gs ch ≡ serves tracks
    → Opens r gs tracks ch
unfolding Opens setup_tracks
with_codec-Opens r gs tracks invalid h = absurd (ground (arith, h))
with_codec-Opens r gs tracks panics h = absurd (ground (arith, h))
with_codec-Opens r gs tracks (chosen c) h = elim (Option-cases (add_tracks c r.random gs)) [
  | inl fails ↦ absurd (ground (arith, h, fails))
  | inr (ts, made) ↦ (c, refl, ground (arith, h, made))
]

handle_sdp-Opens :
    (r : Request) (gs : List Given) (tracks : List (Option Track))
    → handle_sdp r ≡ serves tracks
    → r.streams ≡ some gs
    → Opens r gs tracks (choose_codec r.parsed)
unfolding handle_sdp
handle_sdp-Opens r gs tracks h given =
    with_codec-Opens r gs tracks (choose_codec r.parsed) (ground (arith, h, given))

await-connects :
    (connected : ℕ) (quiet later : List ℕ)
    → All (λ st. st < connected) quiet
    → await connected (quiet ++ connected ∷ later) ≡ connects
unfolding await
await-connects connected [] later all = ground arith
await-connects connected (st ∷ quiet) later (lt, all) =
    let ih = await-connects connected quiet later all in ground (arith, lt, ih)

module _ {ℓ} (Data : Type ℓ) where
  -- A packet of the source, with what has come of the connection's state before it.
  pub record Arrival : Type ℓ where
    pub state : Option ℕ
    pub idx : ℕ
    pub payload : Data

module _ {ℓ} {Data : Type ℓ} where
  abbrev pub arrives : Arrival Data → Round Data
  arrives a = record { state = a.state; read = packet (a.idx, a.payload) }

  abbrev pub Fits : ℕ → List Given → Arrival Data → Type 0
  Fits connected gs a = (still_connected connected a.state ≡ true) × (a.idx < length gs)

  -- The browser has left, or the stream is over.
  abbrev pub Leaves : ℕ → Round Data → Type ℓ
  Leaves connected r = (still_connected connected r.state ≡ false) ⊎ (r.read ≡ eof)

  abbrev pub sent_on : Track × Data → Option Track × Data
  sent_on (t, d) = (some t, d)

  abbrev pub due : Codec → ℕ → List Given → Arrival Data → Option Track × Data
  due c ssrc gs a = (track_for c ssrc gs a.idx, a.payload)

  -- What has been sent, and that it is over.
  pub record HasSent (todo : List (Option Track × Data)) (s : Served Data) : Type ℓ where
    pub all : map sent_on s.sent ≡ todo
    pub over : s.outcome ≡ finished
    pub closes : s.closed ≡ true

  send-HasSent :
      {todo : List (Option Track × Data)} (slot : Option (Option Track)) (t : Track)
      (track : Option Track) (d : Data) (rest : Served Data)
      → slot ≡ some (some t)
      → track ≡ some t
      → HasSent todo rest
      → HasSent ((track, d) ∷ todo) (send slot d rest)
  send-HasSent slot t track d rest at is s =
      rw (at, is) record { all = ap (λ l. (some t, d) ∷ l) s.all; over = s.over; closes = s.closes }

  play-Leaves :
      (connected : ℕ) (tracks : List (Option Track)) (last : Round Data) (rest : List (Round Data))
      → Leaves connected last
      → HasSent [] (play connected tracks (last ∷ rest))
  unfolding play
  play-Leaves connected tracks last rest (inl gone) =
      rw gone record { all = refl; over = refl; closes = refl }
  play-Leaves connected tracks last rest (inr over) =
      elim (Bool-cases (still_connected connected last.state)) [
        | inl here ↦ rw (here, over) record { all = refl; over = refl; closes = refl }
        | inr gone ↦ rw gone record { all = refl; over = refl; closes = refl }
      ]

  play-HasSent :
      (connected : ℕ) (c : Codec) (ssrc : ℕ) (gs : List Given) (tracks : List (Option Track))
      (arrivals : List (Arrival Data)) (last : Round Data) (rest : List (Round Data))
      → ((idx : ℕ) → idx < length gs → Made c ssrc gs tracks idx)
      → All (Fits connected gs) arrivals
      → Leaves connected last
      → HasSent
          (map (due c ssrc gs) arrivals)
          (play connected tracks (map arrives arrivals ++ last ∷ rest))
  unfolding play Made
  play-HasSent connected c ssrc gs tracks [] last rest made fit leaves =
      play-Leaves connected tracks last rest leaves
  play-HasSent connected c ssrc gs tracks (a ∷ more) last rest made ((here, lt), fit) leaves =
      let ih = play-HasSent connected c ssrc gs tracks more last rest made fit leaves in
      let (t, at, is) = made a.idx lt in
      rw here
        (send-HasSent (get_elem? tracks a.idx) t (track_for c ssrc gs a.idx) a.payload _ at is ih)

  -- A request that HandleSDP serves gets the codec that its offer asks for. When the connection
  -- comes up, each packet of the source is sent, in order, on the track made for its stream
  -- (H.264 with that codec, Opus with its own, and an SSRC counted on from the first, modulo
  -- 2^32), while the browser stays connected, if every packet is of one of the streams; when the
  -- browser leaves or the stream ends nothing more is sent, and the connection is closed without
  -- error.
  pub serve-delivers :
      (r : Request) (gs : List Given) (tracks : List (Option Track)) (connected : ℕ)
      (quiet later : List ℕ) (arrivals : List (Arrival Data)) (last : Round Data)
      (rest : List (Round Data))
      → handle_sdp r ≡ serves tracks
      → r.streams ≡ some gs
      → r.random < 2 ^ 32
      → All (λ st. st < connected) quiet
      → All (Fits connected gs) arrivals
      → Leaves connected last
      → (c : Codec) × (choose_codec r.parsed ≡ chosen c)
        × HasSent (map (due c r.random gs) arrivals) (
            serve connected tracks
              (quiet ++ connected ∷ later)
              (map arrives arrivals ++ last ∷ rest))
  unfolding serve Opens
  serve-delivers r gs tracks connected quiet later arrivals last rest h given small all fit leaves =
      let (c, is, made) = handle_sdp-Opens r gs tracks h given in
      (
        c,
        is,
        rw (await-connects connected quiet later all, serve)
            (play-HasSent connected c r.random gs tracks arrivals last rest
              (λ idx. get_elem?-add_tracks c r.random gs tracks idx made small) fit leaves),
      )
