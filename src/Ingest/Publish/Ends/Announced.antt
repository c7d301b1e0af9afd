-- ===== src/Ingest/Publish/Ends/Announced.antt =====
-- What is announced of a publication.
use mathlib.Core.List.{append-nil, append_assoc}
use gunk.Base.{
  ℕ, ◌≡◌, ◌∙◌, sym, refl, ap, Bool, true, false, not, ◌&&◌, none, some, List, [], ◌∷◌, ◌++◌,
  is_some, by_branch, arith,
}
use gunk.Model.{ChannelAuth}
use gunk.Base.Group.{ErrGroup}
use gunk.Ingest.Manager.{Announcement, Publication, Manager, end_publish, on_thumb}
use gunk.Ingest.Publish.{
  Failure, Run, Event, copy_ends, hls_ends, thumb, thumbs_end, opus_ends, context_ends,
  wait_returns, elsewhere, needs_opus, start, all_ended, step, run,
}
use gunk.Ingest.Publish.Ends.{Settled, step-Settled, going-outcome}
use gunk.Ingest.Publish.Ends.Result.{begun, start-begun, begun-Settled}

-- The announcements of a publication: that it is live, its thumbnails, and that it has ended.
abbrev pub shots : ChannelAuth → List ℕ → List Announcement
shots auth [] = []
shots auth (t ∷ ts) = record { auth = auth; live = true; thumb = some t } ∷ shots auth ts

abbrev pub goodbye : ChannelAuth → Bool → List Announcement
goodbye auth false = []
goodbye auth true = record { auth = auth; live = false; thumb = none } ∷ []

shot : ChannelAuth → ℕ → Announcement
shot auth t = record { auth = auth; live = true; thumb = some t }

shots-append :
    (auth : ChannelAuth) (ts : List ℕ) (t : ℕ)
    → shots auth (ts ++ t ∷ []) ≡ shots auth ts ++ shot auth t ∷ []
unfolding shot
shots-append auth [] t = refl
shots-append auth (u ∷ ts) t = ap (λ l. shot auth u ∷ l) (shots-append auth ts t)

one_more :
    {A : Type 0} (a b s s' : List A) (x : A)
    → a ≡ b ++ s ++ []
    → s' ≡ s ++ x ∷ []
    → a ++ x ∷ [] ≡ b ++ s' ++ []
one_more a b s s' x e f =
    ap (λ l. l ++ x ∷ []) (e ∙ append-nil (b ++ s))
    ∙ (append_assoc b s (x ∷ []) ∙ (ap (λ l. b ++ l) (sym f) ∙ sym (append-nil (b ++ s'))))

module _ (is_audio : ℕ → Bool) (opus_type : ℕ) {G E : Type 0} (eg : ErrGroup G (Failure E)) where
  -- What has been said since.
  Heard : Publication → List Announcement → Run G E → Type 0
  Heard p before r =
      (ts : List ℕ) × (r.manager.announced
        ≡ before ++ shots p.auth ts ++ goodbye p.auth (is_some r.outcome))

  step-Heard :
      (n : Bool) (p : Publication) (before : List Announcement) (r : Run G E) (e : Event E)
      → Settled is_audio opus_type eg n r
      → Heard p before r
      → Heard p before (step is_audio opus_type eg p r e)
  unfolding step Heard on_thumb end_publish shot
  step-Heard n p before r (thumb now has_bframes) s h =
      by_branch (Heard p before) r.thumbs_run
        (λ c.
          let o = going-outcome is_audio opus_type eg n r s (ground (arith, c)) in
          let silent : is_some r.outcome ≡ false = ap is_some o in
          (
            h.0 ++ now ∷ [],
            one_more r.manager.announced before (shots p.auth h.0) (shots p.auth (h.0 ++ now ∷ []))
                  (shot p.auth now)
                  (h.1 ∙ ap (λ b. before ++ shots p.auth h.0 ++ goodbye p.auth b) silent)
                  (shots-append p.auth h.0 now)
                ∙ ap (λ b. before ++ shots p.auth (h.0 ++ now ∷ []) ++ goodbye p.auth b)
                    (sym silent),
          ))
        (λ c. h)
  step-Heard n p before r (wait_returns now) s h =
      by_branch (Heard p before) (all_ended is_audio opus_type eg r && not (is_some r.outcome))
        (λ c.
          let silent : is_some r.outcome ≡ false = ground (arith, c) in
          (
            h.0,
            ap (λ l. l ++ goodbye p.auth true)
                (h.1
                  ∙ (ap (λ b. before ++ shots p.auth h.0 ++ goodbye p.auth b) silent
                      ∙ append-nil (before ++ shots p.auth h.0))),
          ))
        (λ c. h)
  step-Heard n p before r (copy_ends o) s h = by_branch (Heard p before) r.copies (λ c. h) (λ c. h)
  step-Heard n p before r (hls_ends o) s h = by_branch (Heard p before) r.hls_runs (λ c. h) (λ c. h)
  step-Heard n p before r (opus_ends o) s h =
      by_branch (Heard p before) r.converts (λ c. h) (λ c. h)
  step-Heard n p before r thumbs_end s h = by_branch (Heard p before) r.thumbs_run (λ c. h) (λ c. h)
  step-Heard n p before r context_ends s h =
      by_branch (Heard p before) (r.watches && eg.cancelled r.group) (λ c. h) (λ c. h)
  step-Heard n p before r (elsewhere channels) s h = h

  run-Heard :
      (n : Bool) (p : Publication) (before : List Announcement) (r : Run G E) (es : List (Event E))
      → Settled is_audio opus_type eg n r
      → Heard p before r
      → Heard p before (run is_audio opus_type eg p r es)
  run-Heard n p before r [] s h = h
  run-Heard n p before r (e ∷ es) s h =
      run-Heard n p before (step is_audio opus_type eg p r e) es
        (step-Settled is_audio opus_type eg n p r e s) (step-Heard n p before r e s h)

  -- A publication that can begin is announced as live first, then only by its thumbnails, and as
  -- ended once, with Publish's return and by nothing else: whatever its goroutines do, in whatever
  -- order, and whatever the rest of the server does to the channels, no thumbnail is announced
  -- behind the end.
  pub announced_until_end :
      (p : Publication) (m : Manager) (es : List (Event E))
      → (is_some p.streams && p.grab_ok) ≡ true
      → (ts : List ℕ) × ((run is_audio opus_type eg p
            (start is_audio opus_type eg p m)
            es).manager.announced
          ≡ m.announced
            ++ record { auth = p.auth; live = true; thumb = none } ∷ []
            ++ shots p.auth ts
            ++ goodbye p.auth (
                is_some (run is_audio opus_type eg p (start is_audio opus_type eg p m) es).outcome))
  unfolding Heard
  announced_until_end p m es can =
      let before : List Announcement =
        m.announced ++ record { auth = p.auth; live = true; thumb = none } ∷ [] in
      rw (start-begun is_audio opus_type eg p m can) (
        run-Heard (needs_opus is_audio opus_type eg p.streams) p before
          (begun is_audio opus_type eg p m) es (begun-Settled is_audio opus_type eg p m)
          ([], sym (append-nil (before ++ []) ∙ append-nil before)))
