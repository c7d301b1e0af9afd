-- ===== src/Ingest/Channel.antt =====
-- ingest/manager.go and publish.go: one channel, between its publishers and its viewers. A pubsub
-- queue and an HLS publisher are objects of other packages: here each is a number, and what is
-- asked of it is a list of effects. Each function is one critical section of the channel's mutex. A
-- time is in nanoseconds since the process began, and the clock does not run backwards.
pub mod Consistent
pub mod Takeover
pub mod Expiry
pub mod Viewers
use gunk.Base.{
  ℕ, suc, ◌+◌, ◌-◌, ◌*◌, ◌%◌, ◌^◌, ◌≡◌, Bool, true, false, not, ◌&&◌, Option, none, some, List, [],
  ◌∷◌, ◌++◌, ltb, leb, ◌==◌, if◌then◌else◌, Text, is_some,
}
use gunk.Base.Dict.{Dict, get, put, delete}
use gunk.Base.Int.{ℤ, pos, ◌+ℤ◌, signed32}

pub data Effect : Type 0 where
  closes_queue : ℕ → Effect
  discontinuity : ℕ → Effect
  closes_hls : ℕ → Effect

pub record Channel : Type 0 where
  pub ingest : Option ℕ
  pub aac : Option ℕ
  pub opus : Option ℕ
  pub hls : Option ℕ
  pub stopped_at : Option ℕ  -- `none` is the zero time
  pub live : Bool  -- a uintptr, 0 or 1
  pub rtc : Bool  -- a uintptr, 0 or 1
  pub viewers : ℕ  -- the 32-bit pattern of an int32
  pub hlsv : Dict ℕ  -- the time of each host's last view
  pub hlsv_total : ℕ  -- the 32-bit pattern of an int32
  pub effects : List Effect

-- new(channel)
abbrev pub new_channel : Channel
new_channel = record {
  ingest = none;
  aac = none;
  opus = none;
  hls = none;
  stopped_at = none;
  live = false;
  rtc = false;
  viewers = 0;
  hlsv = [];
  hlsv_total = 0;
  effects = [];
}

abbrev pub effect : Effect → Channel → Channel
effect e ch = record ch { effects = ch.effects ++ e ∷ [] }

-- `if ch.ingest != nil { ch.ingest.Close() }`
abbrev pub close_ingest : Option ℕ → Channel → Channel
close_ingest none ch = ch
close_ingest (some q) ch = effect (closes_queue q) ch

-- The HLS publisher goes on behind a discontinuity, or is a new one.
abbrev pub open_hls : Option ℕ → ℕ → Channel → Channel
open_hls (some p) fresh ch = effect (discontinuity p) ch
open_hls none fresh ch = record ch { hls = some fresh }

-- setStream, with the number that a new HLS publisher would get.
unfoldable pub set_stream : ℕ → ℕ → ℕ → ℕ → Channel → Channel
set_stream q aacq opusq fresh ch =
    let closed = close_ingest ch.ingest ch in
    let swapped = record closed { ingest = some q; aac = some aacq; opus = some opusq } in
    let served = open_hls ch.hls fresh swapped in record served { stopped_at = none; live = true }

abbrev pub is_current : Option ℕ → ℕ → Bool
is_current none q = false
is_current (some p) q = p == q

-- stopStream, at a time.
unfoldable pub stop_stream : ℕ → ℕ → Channel → Channel
stop_stream q now ch =
    if is_current ch.ingest q
    then record ch { live = false; ingest = none; aac = none; opus = none; stopped_at = some now }
    else ch

-- hlsExpiry and hlsViewTimeout
abbrev pub hls_expiry : ℕ
hls_expiry = 60 * 1000000000

abbrev pub hls_view_timeout : ℕ
hls_view_timeout = 16 * 1000000000

abbrev pub has_expired : Option ℕ → ℕ → Bool
has_expired none now = false
has_expired (some t) now = ltb hls_expiry (now - t)

abbrev pub close_hls : Option ℕ → Channel → Channel
close_hls none ch = ch
close_hls (some p) ch = effect (closes_hls p) (record ch { hls = none })

-- cleanup, at a time.
unfoldable pub cleanup : ℕ → Channel → Channel
cleanup now ch = if has_expired ch.stopped_at now then close_hls ch.hls ch else ch

-- The methods that take a nil channel too.
unfoldable pub queue : Bool → Option Channel → Option ℕ
queue opus none = none
queue opus (some ch) = if opus then ch.opus else ch.aac

unfoldable pub is_live : Option Channel → Bool
is_live none = false
is_live (some ch) = ch.live

unfoldable pub get_hls : Option Channel → Option ℕ
get_hls none = none
get_hls (some ch) = ch.hls

-- addViewer, by the 32-bit pattern of the difference.
unfoldable pub add_viewer : ℕ → Channel → Channel
add_viewer delta ch = record ch { viewers = (ch.viewers + delta) % 2 ^ 32 }

unfoldable pub hls_viewed : Text → ℕ → Channel → Channel
hls_viewed host now ch = record ch { hlsv = put host now ch.hlsv }

-- The Range of countHLSViewers: the hosts that are kept, and how many they are.
unfoldable pub fresh_views : ℕ → Dict ℕ → Dict ℕ
fresh_views now [] = []
fresh_views now ((host, t) ∷ views) =
    let rest = fresh_views now views in
    if ltb hls_view_timeout (now - t) then rest else (host, t) ∷ rest

abbrev pub count_entries : Dict ℕ → ℕ
count_entries [] = 0
count_entries (_ ∷ views) = suc (count_entries views)

unfoldable pub count_hls_viewers : ℕ → Channel → Channel
unfolding fresh_views
count_hls_viewers now ch =
    let kept = fresh_views now ch.hlsv in
    record ch { hlsv = kept; hlsv_total = count_entries kept % 2 ^ 32 }

unfoldable pub current_viewers : Channel → ℤ
current_viewers ch = signed32 ch.viewers +ℤ signed32 ch.hlsv_total

-- The rtc flag after a thumbnail.
unfoldable pub note_bframes : Bool → Channel → Channel
note_bframes has_bframes ch = record ch { rtc = not has_bframes }

-- What may happen to a channel, in any order.
pub data Event : Type 0 where
  sets : ℕ → ℕ → ℕ → ℕ → Event
  stops : ℕ → ℕ → Event
  cleans : ℕ → Event
  looks : Text → ℕ → Event
  counts : ℕ → Event
  joins : Event
  leaves : Event
  thumbs : Bool → Event

-- int32(1) and int32(-1)
abbrev pub one : ℕ
one = 1

abbrev pub minus_one : ℕ
minus_one = 2 ^ 32 - 1

unfoldable pub step : Channel → Event → Channel
step ch (sets q aacq opusq fresh) = set_stream q aacq opusq fresh ch
step ch (stops q now) = stop_stream q now ch
step ch (cleans now) = cleanup now ch
step ch (looks host now) = hls_viewed host now ch
step ch (counts now) = count_hls_viewers now ch
step ch joins = add_viewer one ch
step ch leaves = add_viewer minus_one ch
step ch (thumbs has_bframes) = note_bframes has_bframes ch

unfoldable pub run : Channel → List Event → Channel
run ch [] = ch
run ch (e ∷ es) = run (step ch e) es
