-- ===== src/Ingest/Channel/Viewers.antt =====
-- The viewer counts of a channel.
use gunk.Base.{
  ◌≡◌, ◌+◌, ◌-◌, ◌%◌, ◌^◌, ◌<◌, refl, Option, none, some, List, [], ◌∷◌, arith, ℕ, suc,
  if◌then◌else◌, ltb, Text, text_eq_iff, text_eq_refl,
}
use gunk.Base.Dict.{Dict, get, put, delete, get-delete}
use gunk.Ingest.Channel.{
  Channel, new_channel, set_stream, stop_stream, cleanup, hls_viewed, count_hls_viewers, add_viewer,
  note_bframes, Event, looks, counts, joins, leaves, step, run, fresh_views, hls_view_timeout,
  count_entries,
}

-- How many viewers have come, and gone.
abbrev pub joined : List Event → ℕ
joined [] = 0
joined (joins ∷ es) = suc (joined es)
joined (_ ∷ es) = joined es

abbrev pub left : List Event → ℕ
left [] = 0
left (leaves ∷ es) = suc (left es)
left (_ ∷ es) = left es

joined-cons : (e : Event) (es : List Event) → joined (e ∷ es) ≡ joined (e ∷ []) + joined es
joined-cons joins es = omega arith
joined-cons e es = omega arith

left-cons : (e : Event) (es : List Event) → left (e ∷ es) ≡ left (e ∷ []) + left es
left-cons leaves es = omega arith
left-cons e es = omega arith

viewers-step :
    (ch : Channel) (e : Event)
    → ((step ch e).viewers + left (e ∷ [])) % 2 ^ 32 ≡ (ch.viewers + joined (e ∷ [])) % 2 ^ 32
unfolding step set_stream stop_stream cleanup hls_viewed count_hls_viewers add_viewer note_bframes
viewers-step ch joins = omega arith
viewers-step ch e = ground arith

viewers-run :
    (ch : Channel) (es : List Event)
    → ((run ch es).viewers + left es) % 2 ^ 32 ≡ (ch.viewers + joined es) % 2 ^ 32
unfolding run
viewers-run ch [] = refl
viewers-run ch (e ∷ es) =
    omega (arith, viewers-run (step ch e) es, viewers-step ch e, joined-cons e es, left-cons e es)

viewers-word : (ch : Channel) (es : List Event) → ch.viewers < 2 ^ 32 → (run ch es).viewers < 2 ^ 32
unfolding run step set_stream stop_stream cleanup hls_viewed count_hls_viewers add_viewer
    note_bframes
viewers-word ch [] h = h
viewers-word ch (e ∷ es) h = viewers-word (step ch e) es (ground arith)

-- Whatever else happens in between, the count is of the viewers that have come and not gone, while
-- these are fewer than 2^31: every one that goes has come before.
pub viewers_balance :
    (es : List Event) (watching : ℕ)
    → joined es ≡ left es + watching
    → watching < 2 ^ 31
    → (run new_channel es).viewers ≡ watching
viewers_balance es watching come fits =
    omega (arith, viewers-run new_channel es, viewers-word new_channel es (omega arith))

-- A host's last view, unless it is too old.
abbrev pub recent : ℕ → Option ℕ → Option ℕ
recent now none = none
recent now (some t) = if ltb hls_view_timeout (now - t) then none else some t

-- Each host has one entry.
abbrev pub IsDistinct : Dict ℕ → Type 0
IsDistinct [] = Unit
IsDistinct ((host, t) ∷ views) = (get host views ≡ none) × IsDistinct views

get-fresh_views :
    (now : ℕ) (views : Dict ℕ) (host : Text)
    → IsDistinct views
    → get host (fresh_views now views) ≡ recent now (get host views)
unfolding get fresh_views
get-fresh_views now [] host d = refl
get-fresh_views now ((h, t) ∷ views) host d =
    ground (arith, get-fresh_views now views host d.1, text_eq_iff h host)

fresh_views-IsDistinct :
    (now : ℕ) (views : Dict ℕ) → IsDistinct views → IsDistinct (fresh_views now views)
unfolding fresh_views
fresh_views-IsDistinct now [] d = tt
fresh_views-IsDistinct now ((h, t) ∷ views) d =
    ground (arith, fresh_views-IsDistinct now views d.1, get-fresh_views now views h d.1)

delete-IsDistinct : (k : Text) (views : Dict ℕ) → IsDistinct views → IsDistinct (delete k views)
unfolding delete
delete-IsDistinct k [] d = tt
delete-IsDistinct k ((h, t) ∷ views) d =
    ground (arith, delete-IsDistinct k views d.1, get-delete k h views)

put-IsDistinct : (k : Text) (t : ℕ) (views : Dict ℕ) → IsDistinct views → IsDistinct (put k t views)
unfolding put
put-IsDistinct k t views d =
    ground (arith, delete-IsDistinct k views d, get-delete k k views, text_eq_refl k)

step-IsDistinct : (ch : Channel) (e : Event) → IsDistinct ch.hlsv → IsDistinct (step ch e).hlsv
unfolding step set_stream stop_stream cleanup hls_viewed count_hls_viewers add_viewer note_bframes
step-IsDistinct ch (looks host now) d = put-IsDistinct host now ch.hlsv d
step-IsDistinct ch (counts now) d = fresh_views-IsDistinct now ch.hlsv d
step-IsDistinct ch e d = ground arith

run-IsDistinct : (ch : Channel) (es : List Event) → IsDistinct ch.hlsv → IsDistinct (run ch es).hlsv
unfolding run
run-IsDistinct ch [] d = d
run-IsDistinct ch (e ∷ es) d = run-IsDistinct (step ch e) es (step-IsDistinct ch e d)

-- After any operations a count keeps exactly the hosts that have viewed in the last 16 seconds,
-- with the times of their last views, and the total is their number.
pub count_hls_viewers_exact :
    (es : List Event) (now : ℕ) (host : Text)
    → let ch = run new_channel es in
      let counted = count_hls_viewers now ch in
      (get host counted.hlsv ≡ recent now (get host ch.hlsv))
      × IsDistinct counted.hlsv
      × (counted.hlsv_total ≡ count_entries counted.hlsv % 2 ^ 32)
unfolding count_hls_viewers
count_hls_viewers_exact es now host =
    let d = run-IsDistinct new_channel es tt in
    (
      get-fresh_views now (run new_channel es).hlsv host d,
      fresh_views-IsDistinct now (run new_channel es).hlsv d,
      refl,
    )
