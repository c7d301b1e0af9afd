-- ===== src/Web/News/Announced.antt =====
-- What is posted and broadcast about the channels, from whatever happens to the manager.
use gunk.Base.{
  ℕ, ◌≡◌, ◌∙◌, inl, inr, refl, sym, ap, Bool, true, false, ◌&&◌, Option, none, some, List, [], ◌∷◌,
  ◌++◌, append_assoc, append-nil, is_some, if◌then◌else◌, Bool-cases,
}
use gunk.Model.{ChannelAuth}
use gunk.Ingest.Manager.{
  Publication, Announcement, Manager, new_manager, begin_with, begin_publish, end_publish, on_thumb,
  cleanup_all,
}
use gunk.Ingest.Manager.Schedule.{Event, begins, ends, thumbs, cleans, step, run, can_begin}
use gunk.Web.News.{ChannelInfo, Addresses, populate_channel, millis, publish_event}

abbrev pub consed {ℓ} : {A : Type ℓ} → Option A → List A → List A
consed none l = l
consed (some a) l = a ∷ l

-- What PublishEvent does with one announcement after the other.
abbrev pub webhooks : Addresses → List Announcement → List ChannelAuth
webhooks a [] = []
webhooks a (n ∷ ns) = consed (publish_event a n).webhook (webhooks a ns)

abbrev pub broadcasts : Addresses → List Announcement → List ChannelInfo
broadcasts a [] = []
broadcasts a (n ∷ ns) = consed (publish_event a n).broadcast (broadcasts a ns)

-- What is to be told of a channel: its name, whether it is on the air, the time of the thumbnail,
-- and the addresses for these.
abbrev pub told : Addresses → ChannelAuth → Bool → Option ℕ → ChannelInfo
told a auth live thumb =
    populate_channel a
      (record { name = auth.name; live = live; last = millis a thumb; thumb = []; live_url = [] })

module _ (is_audio : ℕ → Bool) (opus_type : ℕ) where
  -- The owners of the publications that begin.
  abbrev pub begun : List Event → List ChannelAuth
  begun [] = []
  begun (begins p ∷ es) =
      let more = begun es in if can_begin is_audio opus_type p then p.auth ∷ more else more
  begun (ends p now ∷ es) = begun es
  begun (thumbs p now bf ∷ es) = begun es
  begun (cleans now ∷ es) = begun es

  -- The changes that viewers are told of: each thumbnail and each end.
  abbrev pub changes : Addresses → List Event → List ChannelInfo
  changes a [] = []
  changes a (begins p ∷ es) = changes a es
  changes a (ends p now ∷ es) = told a p.auth false none ∷ changes a es
  changes a (thumbs p now bf ∷ es) = told a p.auth true (some now) ∷ changes a es
  changes a (cleans now ∷ es) = changes a es

  -- What the manager announces for an event.
  abbrev news : Event → List Announcement
  news (begins p) =
      if can_begin is_audio opus_type p
      then record { auth = p.auth; live = true; thumb = none } ∷ []
      else []
  news (ends p now) = record { auth = p.auth; live = false; thumb = none } ∷ []
  news (thumbs p now bf) = record { auth = p.auth; live = true; thumb = some now } ∷ []
  news (cleans now) = []

  abbrev all_news : List Event → List Announcement
  all_news [] = []
  all_news (e ∷ es) = news e ++ all_news es

  announced-begin :
      (m : Manager) (p : Publication) (streams : Option (List ℕ))
      → (begin_with is_audio opus_type p m streams).0.announced
        ≡ m.announced
          ++ (if is_some streams && p.grab_ok
              then record { auth = p.auth; live = true; thumb = none } ∷ []
              else [])
  unfolding begin_with
  announced-begin m p none = sym (append-nil m.announced)
  announced-begin m p (some streams) = elim (Bool-cases p.grab_ok) [
    | inl fine ↦ rw fine refl
    | inr bad ↦ rw bad (sym (append-nil m.announced))
  ]

  announced-step :
      (m : Manager) (e : Event) → (step is_audio opus_type m e).announced ≡ m.announced ++ news e
  unfolding step begin_publish end_publish on_thumb cleanup_all
  announced-step m (begins p) = announced-begin m p p.streams
  announced-step m (ends p now) = refl
  announced-step m (thumbs p now bf) = refl
  announced-step m (cleans now) = sym (append-nil m.announced)

  announced-run :
      (m : Manager) (es : List Event)
      → (run is_audio opus_type m es).announced ≡ m.announced ++ all_news es
  unfolding run
  announced-run m [] = sym (append-nil m.announced)
  announced-run m (e ∷ es) =
      announced-run (step is_audio opus_type m e) es
      ∙ ap (λ l. l ++ all_news es) (announced-step m e)
      ∙ append_assoc m.announced (news e) (all_news es)

  webhooks-news : (a : Addresses) (es : List Event) → webhooks a (all_news es) ≡ begun es
  unfolding publish_event
  webhooks-news a [] = refl
  webhooks-news a (begins p ∷ es) = elim (Bool-cases (can_begin is_audio opus_type p)) [
    | inl can ↦ rw can (ap (λ l. p.auth ∷ l) (webhooks-news a es))
    | inr cannot ↦ rw cannot (webhooks-news a es)
  ]
  webhooks-news a (ends p now ∷ es) = webhooks-news a es
  webhooks-news a (thumbs p now bf ∷ es) = webhooks-news a es
  webhooks-news a (cleans now ∷ es) = webhooks-news a es

  broadcasts-news : (a : Addresses) (es : List Event) → broadcasts a (all_news es) ≡ changes a es
  unfolding publish_event
  broadcasts-news a [] = refl
  broadcasts-news a (begins p ∷ es) = elim (Bool-cases (can_begin is_audio opus_type p)) [
    | inl can ↦ rw can (broadcasts-news a es)
    | inr cannot ↦ rw cannot (broadcasts-news a es)
  ]
  broadcasts-news a (ends p now ∷ es) =
      ap (λ l. told a p.auth false none ∷ l) (broadcasts-news a es)
  broadcasts-news a (thumbs p now bf ∷ es) =
      ap (λ l. told a p.auth true (some now) ∷ l) (broadcasts-news a es)
  broadcasts-news a (cleans now ∷ es) = broadcasts-news a es

  -- Whatever happens to a new manager, PublishEvent starts one webhook for each publication that
  -- begins, in order, and tells the viewers of each thumbnail and each end of a publication, in
  -- order, and of nothing else.
  pub run-news :
      (a : Addresses) (es : List Event)
      → (webhooks a (run is_audio opus_type new_manager es).announced ≡ begun es)
        × (broadcasts a (run is_audio opus_type new_manager es).announced ≡ changes a es)
  run-news a es =
      let all = announced-run new_manager es in
      (ap (webhooks a) all ∙ webhooks-news a es, ap (broadcasts a) all ∙ broadcasts-news a es)
