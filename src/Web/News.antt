-- ===== src/Web/News.antt =====
-- web/events.go and discord_api.go: what the server does when a channel's manager announces
-- something, and the message it posts to Discord. The addresses that the router and net/url make,
-- the state of a token, and what the network answers, stand in the arguments.
pub mod Announced
pub mod Webhook
use gunk.Base.{
  ℕ, ◌/◌, Bool, true, false, not, ◌&&◌, ◌||◌, Option, none, some, List, [], ◌∷◌, ◌++◌, is_some, leb,
  if◌then◌else◌, Text, codes, text_eq,
}
use gunk.Base.Int.{ℤ, pos}
use gunk.Model.{ChannelAuth, Token}
use gunk.Web.Login.{DiscordUser, Site, Discord, Looked, lookup_user}
use gunk.Ingest.Manager.{Announcement}

-- model.ChannelInfo, less the fields that PublishEvent leaves at zero.
pub record ChannelInfo : Type 0 where
  pub name : Text
  pub live : Bool
  pub last : ℤ
  pub thumb : Text
  pub live_url : Text

-- The router's addresses, AdvertiseLive.ResolveReference if it is set, url.PathEscape, and what
-- UnixNano()/1000000 gives for the zero time.
pub record Addresses : Type 0 where
  pub thumb_url : Text → ℤ → Text
  pub channel_url : Text → Text
  pub resolve : Option (Text → Text)
  pub path_escape : Text → Text
  pub base_url : Text
  pub webhook_url : Text
  pub zero_millis : ℤ

abbrev pub resolved : Option (Text → Text) → Text → Text
resolved none t = t
resolved (some f) t = f t

-- populateChannel
unfoldable pub populate_channel : Addresses → ChannelInfo → ChannelInfo
populate_channel a info = record info {
  thumb = a.thumb_url info.name info.last;
  live_url = resolved a.resolve (a.channel_url info.name);
}

abbrev pub millis : Addresses → Option ℕ → ℤ
millis a none = a.zero_millis
millis a (some t) = pos (t / 1000000)

-- What PublishEvent does: the webhook that it starts, and the channel that it broadcasts.
pub record Published : Type 0 where
  pub webhook : Option ChannelAuth
  pub broadcast : Option ChannelInfo

-- PublishEvent
unfoldable pub publish_event : Addresses → Announcement → Published
unfolding populate_channel
publish_event a n =
    let info : ChannelInfo = record {
      name = n.auth.name;
      live = n.live;
      last = millis a n.thumb;
      thumb = [];
      live_url = [];
    } in
    record {
      webhook = if n.live && not (is_some n.thumb) then some n.auth else none;
      broadcast = if not n.live || is_some n.thumb then some (populate_channel a info) else none;
    }

-- The token of a channel's owner, and what comes of asking Discord with it.
abbrev pub is_usable : (Token → Bool) → Option Token → Bool
is_usable is_valid none = false
is_usable is_valid (some t) = is_valid t || not (text_eq t.refresh_token [])

-- What the network does with the request: it is not made, not answered, or answered with a status.
pub data Post : Type 0 where
  not_made : Post
  not_answered : Post
  answered : ℕ → Post

-- The content of the message that is posted, and whether there is no error.
pub record Hooked : Type 0 where
  pub posted : Option Text
  pub ok : Bool

abbrev pub message : Addresses → Text → Text → Text
message a display_name name =
    codes "**"
    ++ display_name
    ++ codes "** is now live at "
    ++ a.base_url
    ++ codes "/watch/"
    ++ a.path_escape name

-- The name is the user's even if the lookup has failed.
abbrev pub display_name : Site → (Token → Bool) → Discord Token → ChannelAuth → Text
display_name s is_valid d auth =
    if is_usable is_valid auth.token then (lookup_user s d).user.username else auth.name

abbrev pub posting : Text → Post → Hooked
posting content not_made = record { posted = none; ok = false }
posting content not_answered = record { posted = some content; ok = false }
posting content (answered status) = record { posted = some content; ok = not (leb 400 status) }

-- doWebhook
unfoldable pub do_webhook :
    Site → Addresses → (Token → Bool) → Discord Token → Post → ChannelAuth → Hooked
unfolding lookup_user
do_webhook s a is_valid d post auth =
    if text_eq a.webhook_url [] || not auth.announce
    then record { posted = none; ok = true }
    else posting (message a (display_name s is_valid d auth) auth.name) post
