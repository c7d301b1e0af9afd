-- ===== src/Web/Pages.antt =====
-- web/channel_info.go, events.go and play.go: the list of channels, for the page and for a new
-- websocket, thumbnails, and the answers of the players' addresses.
pub mod OnAir
use gunk.Base.{
  ℕ, ◌/◌, Bool, true, false, Option, none, some, List, [], ◌∷◌, map, if◌then◌else◌, Text,
}
use gunk.Base.Int.{ℤ, pos}
use gunk.Ingest.Manager
use gunk.Ingest.Manager.{Manager, channel, populate, serve_ts, serve_hls, serve_sdp}
use gunk.Database.Thumbs.{Listed, Got, got, no_rows, failed}
use gunk.Web.News
use gunk.Web.News.{Addresses, populate_channel}

-- model.ChannelInfo
pub record ChannelInfo : Type 0 where
  pub name : Text
  pub live : Bool
  pub last : ℤ
  pub thumb : Text
  pub live_url : Text
  pub viewers : ℤ
  pub rtc : Bool

abbrev pub entry_of : Listed → ChannelInfo
entry_of l = record {
  name = l.name;
  live = false;
  last = pos l.last;
  thumb = [];
  live_url = [];
  viewers = pos 0;
  rtc = false;
}

-- s.populateChannel(info)
abbrev pub addressed : Addresses → ChannelInfo → ChannelInfo
addressed a e =
    let n = populate_channel a (record {
      name = e.name;
      live = e.live;
      last = e.last;
      thumb = e.thumb;
      live_url = e.live_url;
    }) in
    record e { thumb = n.thumb; live_url = n.live_url }

-- One round of PopulateLive.
abbrev pub with_live : Manager → ChannelInfo → ChannelInfo
with_live m e =
    let i =
      populate (record { name = e.name; live = e.live; viewers = e.viewers; rtc = e.rtc })
        (channel m e.name) in
    record e { live = i.live; viewers = i.viewers; rtc = i.rtc }

-- listChannels, on what ListChannelInfo gives.
unfoldable pub list_channels :
    Addresses → Manager → Option (List Listed) → Option (List ChannelInfo)
unfolding populate_channel
list_channels a m none = none
list_channels a m (some rows) = some (map (λ l. with_live m (addressed a (entry_of l))) rows)

-- The loop of onWebsocket, with whether each write succeeds: what is written, and whether all is.
unfoldable pub write_all : List Bool → List ChannelInfo → List ChannelInfo × Bool
write_all oks [] = ([], true)
write_all [] (c ∷ cs) = ([], false)
write_all (false ∷ oks) (c ∷ cs) = ([], false)
write_all (true ∷ oks) (c ∷ cs) = let (sent, ok) = write_all oks cs in (c ∷ sent, ok)

-- onWebsocket: what is written, and whether it returns nil.
unfoldable pub on_websocket : List Bool → Option (List ChannelInfo) → List ChannelInfo × Bool
unfolding write_all
on_websocket oks none = ([], false)
on_websocket oks (some cs) = write_all oks cs

-- What a page writes: an error with its status, JSON, or a picture.
pub data Write : Type 0 where
  error : ℕ → Write
  json : Option (List ChannelInfo) → Write
  picture : Text → Write

-- viewChannelInfo: the list is written behind an error as well.
unfoldable pub view_channel_info : Option (List ChannelInfo) → List Write
view_channel_info none = error 500 ∷ json none ∷ []
view_channel_info (some cs) = json (some cs) ∷ []

-- viewThumb
unfoldable pub view_thumb : Got → List Write
view_thumb (got jpeg) = picture jpeg ∷ []
view_thumb no_rows = error 404 ∷ []
view_thumb failed = error 500 ∷ []

-- How a Serve function of the manager ends: ErrNoChannel, another error, or nil.
pub data Served : Type 0 where
  no_channel : Served
  fails : Served
  serves : Served

-- The status that viewPlayHLS and viewPlayTS write by themselves, if they write one.
unfoldable pub view_play : Served → Option ℕ
view_play no_channel = some 404
view_play fails = none
view_play serves = none

-- viewPlaySDP
unfoldable pub view_play_sdp : Served → Option ℕ
view_play_sdp no_channel = some 404
view_play_sdp fails = some 500
view_play_sdp serves = none

-- `if src == nil { return ErrNoChannel }` and what comes of the rest.
abbrev pub ends_as : Option ℕ → Bool → Served
ends_as none ok = no_channel
ends_as (some q) ok = if ok then serves else fails
