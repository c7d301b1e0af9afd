-- ===== src/Thumbs/Pictures.antt =====
-- Which thumbnails are made, against the key frames of the stream.
use gunk.Base.{
  ℕ, ◌≡◌, refl, sym, ap, subst, ◌∙◌, ◌⊎◌, inl, inr, Bool, true, false, ◌&&◌, Option, none, some,
  List, [], ◌∷◌, ◌++◌, ◌==◌, if◌then◌else◌, Text, length, append_assoc, append-nil, All, Bool-cases,
  arith,
}
use gunk.Avcc.{write_annexb_packet, annexb, write_annexb_lem}
use gunk.Ingest.Copy.{Read, packet, eof, failed}
use gunk.Thumbs.{Parser, Video, Input, Grabber, is_due, make_grab, flush, take_in}

-- The packets of one key frame, each written with the SPS and the PPS in front.
abbrev pub written : Parser → Video → Input → Text
written h v p = annexb (v.sps ∷ v.pps ∷ h.split_nalus p.body)

abbrev pub picture : Parser → Video → List Input → Text
picture h v [] = []
picture h v (p ∷ ps) = written h v p ++ picture h v ps

-- A packet goes on the picture before it if it is a key frame's, of the same time.
abbrev pub goes_on : List Input → Input → Bool
goes_on [] p = true
goes_on (q ∷ _) p = p.is_keyframe && p.time == q.time

abbrev pub fresh : Input → List Input
fresh p = if p.is_keyframe then p ∷ [] else []

-- The picture that a packet completes, and the one that is under way after it.
abbrev pub completed : List Input → Input → Option (List Input)
completed pending p = if goes_on pending p then none else some pending

abbrev pub pending_after : List Input → Input → List Input
pending_after pending p = if goes_on pending p then pending ++ fresh p else fresh p

-- The video packets that a source gives before it ends.
abbrev pub video_packets : Video → List (Read Input) → List Input
video_packets v [] = []
video_packets v (eof ∷ _) = []
video_packets v (failed ∷ _) = []
video_packets v (packet i ∷ rest) =
    let more = video_packets v rest in if i.idx == v.idx then i ∷ more else more

-- The completed pictures, each with the packet that completes it.
abbrev noted : Input → Option (List Input) → List (List Input × Input) → List (List Input × Input)
noted p none more = more
noted p (some done) more = (done, p) ∷ more

abbrev pub pictures : List Input → List Input → List (List Input × Input)
pictures pending [] = []
pictures pending (p ∷ ps) = noted p (completed pending p) (pictures (pending_after pending p) ps)

-- A picture is taken when the last one was taken ten seconds ago or more.
abbrev pub paced : Parser → Video → Option ℕ → List (List Input × Input) → List (Text × ℕ)
paced h v last [] = []
paced h v last ((done, p) ∷ more) =
    let taken = (picture h v done, p.after) ∷ paced h v (some p.after) more in
    let left = paced h v last more in if is_due last p.now then taken else left

pub record Holds (h : Parser) (v : Video) (s : Grabber) (pending : List Input) : Type 0 where
  pub buffered : s.buf ≡ picture h v pending
  pub timed : All (λ p. p.time ≡ s.key_time) pending

picture-snoc :
    (h : Parser) (v : Video) (ps : List Input) (p : Input)
    → picture h v (ps ++ p ∷ []) ≡ picture h v ps ++ written h v p
picture-snoc h v [] p = append-nil _
picture-snoc h v (q ∷ ps) p =
    rw (picture-snoc h v ps p) (sym (append_assoc (written h v q) (picture h v ps) (written h v p)))

pub flush-Holds :
    (h : Parser) (v : Video) (s : Grabber) (pending : List Input) (p : Input)
    → Holds h v s pending
    → goes_on pending p ≡ true
    → flush s p ≡ (s, none)
unfolding flush
flush-Holds h v s [] p holds on = let buffered = holds.buffered in ground (arith, buffered)
flush-Holds h v s (q ∷ pending) p holds on = let timed = holds.timed.0 in ground (arith, timed, on)

pub flush-due :
    (h : Parser) (v : Video) (s : Grabber) (pending : List Input) (p : Input)
    → Holds h v s pending
    → goes_on pending p ≡ false
    → is_due s.last_grab p.now ≡ true
    → flush s p ≡ (record s { buf = []; last_grab = some p.after }, some (make_grab s p))
unfolding flush
flush-due h v s [] p holds off due = absurd (ground (arith, off))
flush-due h v s (q ∷ pending) p holds off due =
    let timed = holds.timed.0 in
    let buffered = holds.buffered in
    let starts : length (picture h v (q ∷ pending)) == 0 ≡ false = ground arith in
    rw (buffered, due) (ground (arith, timed, off, starts))

pub flush-early :
    (h : Parser) (v : Video) (s : Grabber) (pending : List Input) (p : Input)
    → Holds h v s pending
    → goes_on pending p ≡ false
    → is_due s.last_grab p.now ≡ false
    → flush s p ≡ (record s { buf = [] }, none)
unfolding flush
flush-early h v s [] p holds off early = absurd (ground (arith, off))
flush-early h v s (q ∷ pending) p holds off early =
    let timed = holds.timed.0 in
    let buffered = holds.buffered in
    let starts : length (picture h v (q ∷ pending)) == 0 ≡ false = ground arith in
    rw (buffered, early) (ground (arith, timed, off, starts))

All-snoc :
    (P : Input → Type 0) (ps : List Input) (p : Input) → All P ps → P p → All P (ps ++ p ∷ [])
All-snoc P [] p all at = (at, tt)
All-snoc P (q ∷ ps) p (here, all) at = (here, All-snoc P ps p all at)

take_key-Holds :
    (h : Parser) (v : Video) (s : Grabber) (pending : List Input) (p : Input)
    → Holds h v s pending
    → p.is_keyframe ≡ true
    → (pending ≡ []) ⊎ (p.time ≡ s.key_time)
    → Holds h v (take_in h v s p) (pending ++ p ∷ [])
unfolding take_in write_annexb_packet
take_key-Holds h v s pending p holds key same = rw key record {
  buffered =
      write_annexb_lem s.buf (v.sps ∷ v.pps ∷ h.split_nalus p.body)
      ∙ ap (λ b. b ++ written h v p) holds.buffered
      ∙ sym (picture-snoc h v pending (record p { is_keyframe = true }));
  timed = elim same [
    | inl nothing ↦ rw nothing (refl, tt)
    | inr now ↦
        All-snoc (λ q. q.time ≡ p.time) pending (record p { is_keyframe = true })
          (subst (λ t. All (λ q. q.time ≡ t) pending) (sym now) holds.timed) refl
  ];
}

take_other-Holds :
    (h : Parser) (v : Video) (s : Grabber) (pending : List Input) (p : Input)
    → Holds h v s pending
    → p.is_keyframe ≡ false
    → Holds h v (take_in h v s p) pending
unfolding take_in
take_other-Holds h v s pending p holds delta =
    rw delta record { buffered = holds.buffered; timed = holds.timed }

pub fresh-Holds :
    (h : Parser) (v : Video) (s : Grabber) (p : Input)
    → Holds h v s []
    → Holds h v (take_in h v s p) (fresh p)
fresh-Holds h v s p holds = elim (Bool-cases p.is_keyframe) [
  | inl key ↦
      subst (λ l. Holds h v (take_in h v s p) l) (sym (ap (λ b. if b then p ∷ [] else []) key))
        (take_key-Holds h v s [] p holds key (inl refl))
  | inr delta ↦
      subst (λ l. Holds h v (take_in h v s p) l) (sym (ap (λ b. if b then p ∷ [] else []) delta))
        (take_other-Holds h v s [] p holds delta)
]

pub goes_on-Holds :
    (h : Parser) (v : Video) (s : Grabber) (pending : List Input) (p : Input)
    → Holds h v s pending
    → goes_on pending p ≡ true
    → Holds h v (take_in h v s p) (pending ++ fresh p)
goes_on-Holds h v s [] p holds on = fresh-Holds h v s p holds
goes_on-Holds h v s (q ∷ pending) p holds on =
    let timed = holds.timed.0 in
    let key : p.is_keyframe ≡ true = ground (arith, on) in
    let same : p.time ≡ s.key_time = ground (arith, on, timed) in
    subst (λ l. Holds h v (take_in h v s p) ((q ∷ pending) ++ l))
      (sym (ap (λ b. if b then p ∷ [] else []) key))
      (take_key-Holds h v s (q ∷ pending) p holds key (inr same))
