-- ===== src/Thumbs/Pacing.antt =====
-- Which stream thumbnails are made of, which of its pictures, and how often.
use gunk.Base.{
  ℕ, suc, ◌+◌, ◌≤◌, ◌≡◌, refl, sym, ap, subst, ◌∙◌, ◌⊎◌, inl, inr, Option, none, some, List, [],
  ◌∷◌, ◌++◌, map, leb, ◌==◌, Text, length, All, Bool-cases, arith,
}
use gunk.Ingest.Copy.{Read, packet, eof, failed}
use gunk.Thumbs.{
  grab_interval, Parser, Stream, h264, other, Video, find_video, Input, Grabber, initial, Grab,
  Grabs, run, run_from, grab, step,
}
use gunk.Thumbs.Pictures.{video_packets, pictures, paced, goes_on, fresh, Holds}
use gunk.Thumbs.Follows.{seen, pictures-goes_on, pictures-completed, Follows, Follows-packet}

run-Follows :
    (h : Parser) (v : Video) (reads : List (Read Input)) (s : Grabber) (pending : List Input)
    → Holds h v s pending
    → Follows h v s pending reads
unfolding Follows run step
run-Follows h v [] s pending holds = refl
run-Follows h v (eof ∷ reads) s pending holds = refl
run-Follows h v (failed ∷ reads) s pending holds = refl
run-Follows h v (packet p ∷ reads) s pending holds = elim (Bool-cases (p.idx == v.idx)) [
  | inl video ↦ Follows-packet h v s pending p reads holds video (run-Follows h v reads)
  | inr audio ↦ rw audio (run-Follows h v reads s pending holds)
]

abbrev pub IsOther : Stream → Type 0
IsOther s = s ≡ other

-- The last H.264 stream.
pub record IsLast (streams : List Stream) (i : ℕ) (v : Video) : Type 0 where
  pub before : List Stream
  pub after : List Stream
  pub splits : streams ≡ before ++ h264 v.sps v.pps ∷ after
  pub numbered : v.idx ≡ i + length before
  pub last : All IsOther after

abbrev Found : ℕ → Option Video → List Stream → Option Video → Type 0
Found i found streams r =
    ((r ≡ found) × All IsOther streams) ⊎ ((v : Video) × (r ≡ some v) × IsLast streams i v)

IsLast-cons :
    (s : Stream) (streams : List Stream) (i : ℕ) (v : Video)
    → IsLast streams (suc i) v
    → IsLast (s ∷ streams) i v
IsLast-cons s streams i v l = record {
  before = s ∷ l.before;
  after = l.after;
  splits = ap (λ t. s ∷ t) l.splits;
  numbered = l.numbered ∙ omega arith;
  last = l.last;
}

find_video-Found :
    (streams : List Stream) (i : ℕ) (found : Option Video)
    → Found i found streams (find_video i found streams)
unfolding find_video
find_video-Found [] i found = inl (refl, tt)
find_video-Found (other ∷ streams) i found = elim (find_video-Found streams (suc i) found) [
  | inl (same, others) ↦ inl (same, (refl, others))
  | inr (v, is, last) ↦ inr (v, is, IsLast-cons other streams i v last)
]
find_video-Found (h264 sps pps ∷ streams) i found =
    let v : Video = record { idx = i; sps = sps; pps = pps } in
    elim (find_video-Found streams (suc i) (some v)) [
      | inl (same, others) ↦ inr (
        v,
        same,
        record {
          before = [];
          after = streams;
          splits = refl;
          numbered = omega arith;
          last = others;
        },
      )
      | inr (w, is, last) ↦ inr (w, is, IsLast-cons (h264 sps pps) streams i w last)
    ]

initial-Holds : (h : Parser) (v : Video) → Holds h v initial []
initial-Holds h v = record { buffered = refl; timed = tt }

-- No thumbnails are made, and Grab gives an error, exactly when no stream is H.264. Otherwise they
-- are of the last H.264 stream: each is the Annex B form of one whole key frame of it, with the SPS
-- and the PPS; a key frame is offered when a video packet comes that is not part of it, and of
-- these, in order, each is taken that comes ten seconds or more after the one taken last.
pub grab_exact :
    (h : Parser) (streams : List Stream) (reads : List (Read Input))
    → ((grab h (some streams) reads ≡ none) × All IsOther streams)
      ⊎ ((v : Video) × IsLast streams 0 v
          × (gs : Grabs) × (grab h (some streams) reads ≡ some gs)
          × (map seen gs.grabs ≡ paced h v none (pictures [] (video_packets v reads))))
unfolding grab Follows
grab_exact h streams reads = elim (find_video-Found streams 0 none) [
  | inl (same, others) ↦ inl (ap (run_from h reads) same, others)
  | inr (v, is, last) ↦ inr (
    v,
    last,
    run h v initial reads,
    ap (run_from h reads) is,
    run-Follows h v reads initial [] (initial-Holds h v),
  )
]

-- Ten seconds or more between one and the next.
abbrev pub IsSpaced : Option ℕ → List ℕ → Type 0
IsSpaced last [] = Unit
IsSpaced none (t ∷ ts) = IsSpaced (some t) ts
IsSpaced (some last) (t ∷ ts) = (last + grab_interval ≤ t) × IsSpaced (some t) ts

abbrev pub Ticks : Read Input → Type 0
Ticks (packet p) = p.now ≤ p.after
Ticks _ = Unit

abbrev Runs : Input → Type 0
Runs p = p.now ≤ p.after

video_packets-Runs :
    (v : Video) (reads : List (Read Input)) → All Ticks reads → All Runs (video_packets v reads)
video_packets-Runs v [] all = tt
video_packets-Runs v (eof ∷ reads) all = tt
video_packets-Runs v (failed ∷ reads) all = tt
video_packets-Runs v (packet p ∷ reads) (here, all) = elim (Bool-cases (p.idx == v.idx)) [
  | inl video ↦ rw video (here, video_packets-Runs v reads all)
  | inr audio ↦ rw audio (video_packets-Runs v reads all)
]

pictures-Runs :
    (ps : List Input) (pending : List Input)
    → All Runs ps
    → All (λ x. Runs (x.1)) (pictures pending ps)
pictures-Runs [] pending all = tt
pictures-Runs (p ∷ ps) pending (here, all) = elim (Bool-cases (goes_on pending p)) [
  | inl on ↦ rw (pictures-goes_on pending p ps on) (pictures-Runs ps (pending ++ fresh p) all)
  | inr off ↦ rw (pictures-completed pending p ps off) (here, pictures-Runs ps (fresh p) all)
]

times : List (Text × ℕ) → List ℕ
times l = map (λ x. x.1) l

paced-IsSpaced :
    (h : Parser) (v : Video) (last : Option ℕ) (pics : List (List Input × Input))
    → All (λ x. Runs (x.1)) pics
    → IsSpaced last (times (paced h v last pics))
unfolding times
paced-IsSpaced h v last [] all = tt
paced-IsSpaced h v none ((done, p) ∷ pics) (here, all) = paced-IsSpaced h v (some p.after) pics all
paced-IsSpaced h v (some t) ((done, p) ∷ pics) (here, all) =
    let ih = paced-IsSpaced h v (some p.after) pics all in
    elim (Bool-cases (leb (t + grab_interval) p.now)) [
      | inl due ↦ rw due (ground (arith, due, here), ih)
      | inr early ↦ rw early (paced-IsSpaced h v (some t) pics all)
    ]

times-seen : (gs : List Grab) → times (map seen gs) ≡ map (λ g. g.time) gs
unfolding times
times-seen [] = refl
times-seen (g ∷ gs) = ap (λ l. g.time ∷ l) (times-seen gs)

-- Two thumbnails of one call of Grab are ten seconds apart or more, by the clock that is read after each
-- is made, if it does not run backwards while one is made.
pub grab-IsSpaced :
    (h : Parser) (streams : List Stream) (reads : List (Read Input)) (gs : Grabs)
    → All Ticks reads
    → grab h (some streams) reads ≡ some gs
    → IsSpaced none (map (λ g. g.time) gs.grabs)
grab-IsSpaced h streams reads gs ticks made = elim (grab_exact h streams reads) [
  | inl (fails, _) ↦ absurd (ground (arith, made, fails))
  | inr (v, last, found, is, exact) ↦
      let same : found ≡ gs = ground (arith, made, is) in
      subst (λ g. IsSpaced none (map (λ x. x.time) g.grabs)) same
        (subst (λ l. IsSpaced none l) (ap times (sym exact) ∙ times-seen found.grabs)
          (paced-IsSpaced h v none _ (pictures-Runs _ [] (video_packets-Runs v reads ticks))))
]
