-- ===== src/Ftl/Receivers/Delivery.antt =====
-- Which channel a datagram reaches, and what its packets wait behind.
use gunk.Base.{
  ℕ, ◌≤◌, ◌≡◌, ◌≢◌, ◌⊎◌, inl, inr, refl, ap, true, false, ◌&&◌, Option, none, some, List, [], ◌∷◌,
  ◌++◌, ltb, ◌==◌, arith, if◌then◌else◌, Text, be32, text_eq_refl, text_eq_ne, append_cancel,
  length-be32, length, take, drop, length-append, length-drop,
}
use gunk.Base.Dict.{get}
use gunk.Ftl.Handlers.{to4, hash_keys}
use gunk.Ftl.Receivers.{
  Server, receive, delivered, overflowed, ssrc_bytes, octet, capacity, with_waiting, Event,
  registers, unregisters, arrives, consumes, step, run, deliver, tail_of,
}
use gunk.Ftl.Receivers.Table.{has_key, get-add_receiver}

-- A datagram that is neither a ping nor an RTCP sender report.
abbrev pub IsMedia : Text → Type 0
IsMedia d =
    (12 ≤ length d) × ((octet d 0 == 0x81 && octet d 1 == 0xfa) ≡ false) × (octet d 1 ≢ 0xc8)

has_session_keys :
    (ip : Text) (vssrc assrc : ℕ) (bytes : Text)
    → (bytes ≡ be32 vssrc) ⊎ (bytes ≡ be32 assrc)
    → has_key (bytes ++ to4 ip) (hash_keys ip vssrc assrc) ≡ true
unfolding hash_keys
has_session_keys ip vssrc assrc bytes (inl e) =
    ground (arith, ap (λ (t : Text). t ++ to4 ip) e, text_eq_refl (bytes ++ to4 ip))
has_session_keys ip vssrc assrc bytes (inr e) =
    ground (arith, ap (λ (t : Text). t ++ to4 ip) e, text_eq_refl (bytes ++ to4 ip))

-- Once a session is registered, a media datagram from its address that bears one of its SSRCs is
-- put at the end of the session's channel, unless 256 packets wait there already: then it is
-- dropped and nothing changes.
pub receive-registered :
    (s : Server) (ip d : Text) (vssrc assrc ch : ℕ)
    → IsMedia d
    → (ssrc_bytes d ≡ be32 vssrc) ⊎ (ssrc_bytes d ≡ be32 assrc)
    → let t = step s (registers (hash_keys ip vssrc assrc) ch) in
      receive t ip d ≡ (
        if ltb (length (s.waiting ch)) 256
        then (with_waiting t ch (s.waiting ch ++ d ∷ []), delivered ch)
        else (t, overflowed ch))
unfolding receive step
receive-registered s ip d vssrc assrc ch media bears = ground (
  arith,
  get-add_receiver (hash_keys ip vssrc assrc) ch s.receivers (ssrc_bytes d ++ to4 ip),
  has_session_keys ip vssrc assrc (ssrc_bytes d) bears,
)

abbrev pub IsAddress : Text → Type 0
IsAddress ip = (length (to4 ip) ≡ 4) ⊎ (length (to4 ip) ≡ 16)

-- The channel under the sender's key is not changed by the session of another host.
other_host :
    (ip other bytes : Text) (vssrc assrc : ℕ)
    → IsAddress ip
    → IsAddress other
    → length bytes ≡ 4
    → to4 ip ≢ to4 other
    → has_key (bytes ++ to4 other) (hash_keys ip vssrc assrc) ≡ false
unfolding hash_keys
other_host ip other bytes vssrc assrc a b four differ = ground (
  arith,
  text_eq_ne (to4 ip) (bytes ++ to4 other) (λ e. lengths (ap length e)),
  text_eq_ne (be32 assrc ++ to4 ip) (bytes ++ to4 other) (λ e. apart assrc e),
  text_eq_ne (be32 vssrc ++ to4 ip) (bytes ++ to4 other) (λ e. apart vssrc e),
)
  where
    lengths : ¬ (length (to4 ip) ≡ length (bytes ++ to4 other))
    lengths e = omega (arith, length-append bytes (to4 other))

    apart : (v : ℕ) → ¬ (be32 v ++ to4 ip ≡ bytes ++ to4 other)
    apart v e =
        differ (append_cancel (be32 v) bytes (to4 ip) (to4 other) (omega (arith, length-be32 v)) e)

length-ssrc_bytes : (d : Text) → 12 ≤ length d → length (ssrc_bytes d) ≡ 4
length-ssrc_bytes d long = length-take (drop 8 d) (omega (arith, length-drop 8 d))
  where
    length-take : (xs : Text) → 4 ≤ length xs → length (take 4 xs) ≡ 4
    length-take (a ∷ b ∷ c ∷ e ∷ xs) h = refl
    length-take [] h = absurd (omega arith)
    length-take (a ∷ []) h = absurd (omega arith)
    length-take (a ∷ b ∷ []) h = absurd (omega arith)
    length-take (a ∷ b ∷ c ∷ []) h = absurd (omega arith)

-- A session never receives the media of another host: registering it changes nothing of what
-- happens to a datagram from a different address.
pub receive-other_host :
    (s : Server) (ip other d : Text) (vssrc assrc ch : ℕ)
    → IsAddress ip
    → IsAddress other
    → to4 ip ≢ to4 other
    → IsMedia d
    → (receive (step s (registers (hash_keys ip vssrc assrc) ch)) other d).1 ≡ (receive s other d).1
unfolding receive step
receive-other_host s ip other d vssrc assrc ch a b differ media = ground (
  arith,
  get-add_receiver (hash_keys ip vssrc assrc) ch s.receivers (ssrc_bytes d ++ to4 other),
  other_host ip other (ssrc_bytes d) vssrc assrc a b (length-ssrc_bytes d media.0) differ,
)

-- Every channel is within its capacity.
abbrev pub IsBounded : Server → Type 0
IsBounded s = (ch : ℕ) → length (s.waiting ch) ≤ capacity

deliver-IsBounded :
    (s : Server) (d : Text) (found : Option ℕ) → IsBounded s → IsBounded (deliver s d found).0
deliver-IsBounded s d none h c = h c
deliver-IsBounded s d (some ch) h c = ground (arith, h c, length-append (s.waiting ch) (d ∷ []))

length-tail_of : (xs : List Text) → length (tail_of xs) ≤ length xs
length-tail_of [] = omega arith
length-tail_of (x ∷ xs) = omega arith

step-IsBounded : (s : Server) (e : Event) → IsBounded s → IsBounded (step s e)
unfolding step receive
step-IsBounded s (registers keys ch) h c = h c
step-IsBounded s (unregisters keys ch) h c = h c
step-IsBounded s (arrives ip d) h c =
    ground (arith, deliver-IsBounded s d (get (ssrc_bytes d ++ to4 ip) s.receivers) h c)
step-IsBounded s (consumes ch) h c = ground (arith, h c, length-tail_of (s.waiting ch))

-- However sessions begin and end, datagrams arrive and readers take them, no channel ever holds
-- more than its 256 packets.
pub run-IsBounded : (s : Server) (es : List Event) → IsBounded s → IsBounded (run s es)
unfolding run
run-IsBounded s [] h = h
run-IsBounded s (e ∷ es) h = run-IsBounded (step s e) es (step-IsBounded s e h)
