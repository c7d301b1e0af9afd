-- ===== src/Thumbs/Follows.antt =====
-- The loop makes the thumbnails that the pictures of the stream call for.
use gunk.Base.{
  ℕ, ◌≡◌, refl, ap, ◌∙◌, ◌⊎◌, inl, inr, true, false, Option, none, some, List, [], ◌∷◌, ◌++◌, map,
  ◌==◌, Text, Bool-cases, arith,
}
use gunk.Ingest.Copy.{Read, packet}
use gunk.Thumbs.{
  Parser, Video, Input, Grabber, Grab, is_due, make_grab, flush, take_in, step, with_grab, run,
}
use gunk.Thumbs.Pictures.{
  picture, goes_on, fresh, video_packets, pictures, paced, Holds, flush-Holds, flush-due,
  flush-early, fresh-Holds, goes_on-Holds,
}

last_grab-take_in :
    (h : Parser) (v : Video) (s : Grabber) (p : Input) → (take_in h v s p).last_grab ≡ s.last_grab
unfolding take_in
last_grab-take_in h v s p = ground arith

run-packet :
    (h : Parser) (v : Video) (s next : Grabber) (out : Option Grab) (p : Input)
    (rest : List (Read Input))
    → p.idx == v.idx ≡ true
    → flush s p ≡ (next, out)
    → run h v s (packet p ∷ rest) ≡ with_grab out (run h v (take_in h v next p) rest)
unfolding run step
run-packet h v s next out p rest video flushed = rw (video, flushed) refl

abbrev pub seen : Grab → Text × ℕ
seen g = (g.raw, g.time)

unfoldable pub Follows : Parser → Video → Grabber → List Input → List (Read Input) → Type 0
Follows h v s pending reads =
    map seen (run h v s reads).grabs
    ≡ paced h v s.last_grab (pictures pending (video_packets v reads))

pub pictures-goes_on :
    (pending : List Input) (p : Input) (ps : List Input)
    → goes_on pending p ≡ true
    → pictures pending (p ∷ ps) ≡ pictures (pending ++ fresh p) ps
pictures-goes_on pending p ps on = rw on refl

pub pictures-completed :
    (pending : List Input) (p : Input) (ps : List Input)
    → goes_on pending p ≡ false
    → pictures pending (p ∷ ps) ≡ (pending, p) ∷ pictures (fresh p) ps
pictures-completed pending p ps off = rw off refl

video_packets-packet :
    (v : Video) (p : Input) (rest : List (Read Input))
    → p.idx == v.idx ≡ true
    → video_packets v (packet p ∷ rest) ≡ p ∷ video_packets v rest
video_packets-packet v p rest video = rw video refl

-- The loop after a packet that the code flushes with a state and perhaps a grab.
after_flush :
    (h : Parser) (v : Video) (s next : Grabber) (out : Option Grab) (l : List Input) (p : Input)
    (rest : List (Read Input))
    → p.idx == v.idx ≡ true
    → flush s p ≡ (next, out)
    → Follows h v (take_in h v next p) l rest
    → (run h v s (packet p ∷ rest) ≡ with_grab out (run h v (take_in h v next p) rest))
      × (map seen (run h v (take_in h v next p) rest).grabs
          ≡ paced h v next.last_grab (pictures l (video_packets v rest)))
unfolding Follows
after_flush h v s next out l p rest video flushed follows = (
  run-packet h v s next out p rest video flushed,
  follows
      ∙ ap (λ t. paced h v t (pictures l (video_packets v rest))) (last_grab-take_in h v next p),
)

pub Follows-packet :
    (h : Parser) (v : Video) (s : Grabber) (pending : List Input) (p : Input)
    (rest : List (Read Input))
    → Holds h v s pending
    → p.idx == v.idx ≡ true
    → ((next : Grabber) (l : List Input) → Holds h v next l → Follows h v next l rest)
    → Follows h v s pending (packet p ∷ rest)
unfolding Follows
Follows-packet h v s pending p rest holds video ih = elim (Bool-cases (goes_on pending p)) [
  | inl on ↦
      let (ran, follows) =
        after_flush h v s s none (pending ++ fresh p) p rest video
          (flush-Holds h v s pending p holds on)
          (ih _ _ (goes_on-Holds h v s pending p holds on)) in
      rw
        (
          ran,
          video_packets-packet v p rest video,
          pictures-goes_on pending p (video_packets v rest) on,
        )
        follows
  | inr off ↦ completes off (Bool-cases (is_due s.last_grab p.now))
]
  where
    fresh_from :
        (last : Option ℕ)
        → Follows h v (take_in h v (record s { buf = []; last_grab = last }) p) (fresh p) rest
    fresh_from last = ih _ _ (fresh-Holds h v _ p (record { buffered = refl; timed = tt }))

    completes :
        goes_on pending p ≡ false
        → (is_due s.last_grab p.now ≡ true) ⊎ (is_due s.last_grab p.now ≡ false)
        → map seen (run h v s (packet p ∷ rest)).grabs
          ≡ paced h v s.last_grab (pictures pending (video_packets v (packet p ∷ rest)))
    completes off (inl due) =
        let next = record s { buf = []; last_grab = some p.after } in
        let (ran, follows) =
          after_flush h v s next (some (make_grab s p)) (fresh p) p rest video
            (flush-due h v s pending p holds off due) (fresh_from (some p.after)) in
        let more = video_packets v rest in
        rw (ran, video_packets-packet v p rest video, pictures-completed pending p more off, due)
          (ap (λ b. (b, p.after) ∷ map seen (run h v (take_in h v next p) rest).grabs)
              holds.buffered
            ∙ ap (λ l. (picture h v pending, p.after) ∷ l) follows)
    completes off (inr early) =
        let next = record s { buf = [] } in
        let (ran, follows) =
          after_flush h v s next none (fresh p) p rest video
            (flush-early h v s pending p holds off early) (fresh_from s.last_grab) in
        let more = video_packets v rest in
        rw (ran, video_packets-packet v p rest video, pictures-completed pending p more off, early)
          follows
