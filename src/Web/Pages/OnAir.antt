-- ===== src/Web/Pages/OnAir.antt =====
-- What the pages say of a channel, against who is on the air.
use gunk.Base.{
  ℕ, ◌≡◌, ◌↔◌, ◌∙◌, refl, sym, ap, inl, inr, Bool, true, false, Option, none, some, List, [], ◌∷◌,
  map, is_some, Text, Option-cases, arith,
}
use gunk.Ingest.Channel.{is_live}
use gunk.Ingest.Manager.{Manager, new_manager, channel, serve_ts, serve_sdp}
use gunk.Ingest.Manager.Schedule.{Event, run, on_air_after}
use gunk.Ingest.Manager.Playing.{served_on_air}
use gunk.Database.Thumbs.{Listed}
use gunk.Web.News.{Addresses}
use gunk.Web.Pages.{
  ChannelInfo, entry_of, addressed, with_live, list_channels, view_play, view_play_sdp, ends_as,
}

abbrev pub name_and_live : ChannelInfo → Text × Bool
name_and_live e = (e.name, e.live)

live-with_live :
    (m : Manager) (e : ChannelInfo)
    → e.live ≡ false
    → ((with_live m e).name ≡ e.name) × ((with_live m e).live ≡ is_live (channel m e.name))
unfolding is_live
live-with_live m e off = elim (Option-cases (channel m e.name)) [
  | inl unknown ↦ rw unknown (refl, off)
  | inr (ch, is) ↦ rw is (refl, refl)
]

names_and_lives :
    (a : Addresses) (m : Manager) (playing : Text → Bool) (rows : List Listed)
    → ((name : Text) → is_live (channel m name) ≡ playing name)
    → map name_and_live (map (λ l. with_live m (addressed a (entry_of l))) rows)
      ≡ map (λ l. (l.name, playing l.name)) rows
names_and_lives a m playing [] same = refl
names_and_lives a m playing (l ∷ rows) same =
    let (name, live) = live-with_live m (addressed a (entry_of l)) refl in
    ap
      (λ b.
        (l.name, b) ∷ map name_and_live (map (λ k. with_live m (addressed a (entry_of k))) rows))
      (live ∙ same l.name)
    ∙ ap (λ t. (l.name, playing l.name) ∷ t) (names_and_lives a m playing rows same)

refused_iff :
    (q : Option ℕ) (ok : Bool)
    → ((view_play (ends_as q ok) ≡ some 404) ↔ (is_some q ≡ false))
      × ((view_play_sdp (ends_as q ok) ≡ some 404) ↔ (is_some q ≡ false))
unfolding view_play view_play_sdp
refused_iff none ok = ground arith
refused_iff (some q) true = ground arith
refused_iff (some q) false = ground arith

-- After any schedule of publications and cleanups of a server that starts, the list of channels has
-- every channel of the table, in its order, and says that it is live exactly if a publication is on
-- the air under its name; and the addresses of its MPEG-TS and WebRTC players answer 404 exactly if
-- none is.
pub pages_on_air :
    (is_audio : ℕ → Bool) (opus_type : ℕ) (es : List Event) (a : Addresses) (rows : List Listed)
    (name : Text) (ok : Bool)
    → let m = run is_audio opus_type new_manager es in
      let playing = λ (n : Text). is_some (on_air_after is_audio opus_type n none es) in
      (entries : List ChannelInfo) × (list_channels a m (some rows) ≡ some entries)
      × (map name_and_live entries ≡ map (λ l. (l.name, playing l.name)) rows)
      × ((view_play (ends_as (serve_ts m name) ok) ≡ some 404) ↔ (playing name ≡ false))
      × ((view_play_sdp (ends_as (serve_sdp m name) ok) ≡ some 404) ↔ (playing name ≡ false))
unfolding list_channels
pages_on_air is_audio opus_type es a rows name ok =
    let m = run is_audio opus_type new_manager es in
    let playing = λ (n : Text). is_some (on_air_after is_audio opus_type n none es) in
    let (ts, sdp, live) = served_on_air is_audio opus_type es name in
    let (by_ts, _) = refused_iff (serve_ts m name) ok in
    let (_, by_sdp) = refused_iff (serve_sdp m name) ok in
    (
      map (λ l. with_live m (addressed a (entry_of l))) rows,
      refl,
      names_and_lives a m playing rows (λ n. (served_on_air is_audio opus_type es n).2),
      (λ h. sym (ap is_some ts) ∙ by_ts.0 h, λ h. by_ts.1 (ap is_some ts ∙ h)),
      (λ h. sym sdp ∙ by_sdp.0 h, λ h. by_sdp.1 (sdp ∙ h)),
    )
