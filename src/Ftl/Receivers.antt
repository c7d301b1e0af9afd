-- ===== src/Ftl/Receivers.antt =====
-- ingest/ftl/rtp.go: the UDP socket of the FTL server. Packets are handed to the connection that
-- has registered the sender's address and SSRC. A Go channel is a number, with the packets that
-- wait in it; each step of the model is one critical section of the server's mutex, or one channel
-- operation.
pub mod Table
pub mod Delivery
use gunk.Base.{
  ℕ, suc, ◌+◌, ◌≤◌, ◌<◌, ◌≡◌, Bool, true, false, ◌&&◌, Option, none, some, List, [], ◌∷◌, ◌++◌, ltb,
  ◌==◌, if◌then◌else◌, Text, length, take, drop, get_elem?,
}
use gunk.Base.Dict.{Dict, get, put, delete}
use gunk.Ftl.Handlers.{to4}

-- The capacity of the channel that handleLive makes.
abbrev pub capacity : ℕ
capacity = 256

pub record Server : Type 0 where
  pub receivers : Dict ℕ
  pub waiting : ℕ → List Text

-- addReceiver
unfoldable pub add_receiver : List Text → ℕ → Dict ℕ → Dict ℕ
add_receiver [] rch m = m
add_receiver (k ∷ ks) rch m = add_receiver ks rch (put k rch m)

-- Whether `r == rch` for the channel under a key; a missing key reads as nil.
abbrev pub holds : Option ℕ → ℕ → Bool
holds none rch = false
holds (some r) rch = r == rch

-- delReceiver
unfoldable pub del_receiver : List Text → ℕ → Dict ℕ → Dict ℕ
del_receiver [] rch m = m
del_receiver (k ∷ ks) rch m = del_receiver ks rch (if holds (get k m) rch then delete k m else m)

-- The channel's packets after a change of one channel.
abbrev pub with_waiting : Server → ℕ → List Text → Server
with_waiting s ch packets = record s { waiting = λ c. if c == ch then packets else s.waiting c }

pub data Action : Type 0 where
  ignored : Action
  echoed : Text → Action
  delivered : ℕ → Action
  overflowed : ℕ → Action

abbrev pub octet : Text → ℕ → ℕ
octet d i = elim (get_elem? d i) [ none ↦ 0 | some b ↦ b ]

-- d[8:12]
abbrev pub ssrc_bytes : Text → Text
ssrc_bytes d = take 4 (drop 8 d)

-- The select on the channel: a full one drops the packet.
abbrev pub deliver : Server → Text → Option ℕ → Server × Action
deliver s d none = (s, ignored)
deliver s d (some ch) =
    if ltb (length (s.waiting ch)) capacity
    then (with_waiting s ch (s.waiting ch ++ d ∷ []), delivered ch)
    else (s, overflowed ch)

-- One round of serveRTP, on a datagram and the address that it came from.
unfoldable pub receive : Server → Text → Text → Server × Action
receive s ip d =
    if ltb (length d) 12
    then (s, ignored)
    else if octet d 0 == 0x81 && octet d 1 == 0xfa
    then (s, elim (get (to4 ip) s.receivers) [ none ↦ ignored | some _ ↦ echoed d ])
    else if octet d 1 == 0xc8
    then (s, ignored)
    else deliver s d (get (ssrc_bytes d ++ to4 ip) s.receivers)

-- What may happen to the server: a session begins or ends, a datagram arrives, a reader takes one.
pub data Event : Type 0 where
  registers : List Text → ℕ → Event
  unregisters : List Text → ℕ → Event
  arrives : Text → Text → Event
  consumes : ℕ → Event

abbrev pub tail_of : List Text → List Text
tail_of [] = []
tail_of (_ ∷ ds) = ds

unfoldable pub step : Server → Event → Server
step s (registers keys ch) = record s { receivers = add_receiver keys ch s.receivers }
step s (unregisters keys ch) = record s { receivers = del_receiver keys ch s.receivers }
step s (arrives ip d) = (receive s ip d).0
step s (consumes ch) = with_waiting s ch (tail_of (s.waiting ch))

unfoldable pub run : Server → List Event → Server
run s [] = s
run s (e ∷ es) = run (step s e) es
