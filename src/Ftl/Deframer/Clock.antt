-- ===== src/Ftl/Deframer/Clock.antt =====
-- The timestamps of Deframe: a 32-bit RTP clock unwrapped to 64 bits.
use gunk.Base.{
  ℕ, zero, suc, ◌+◌, ◌-◌, ◌*◌, ◌/◌, ◌%◌, ◌^◌, ◌≤◌, ◌<◌, ◌≡◌, List, [], ◌∷◌, arith, ap, ◌∙◌, some,
}
use gunk.Ticks.{second, from_ts, from_ts_eq, from_ts_panics}
use gunk.Ftl.Deframer.{
  Deframer, RtpPacket, Parser, parse_payload, returned, stamp, Packet, panicked, Result,
  advance_base, deframe,
}

-- The state has seen the true timestamp `at`: the last 32 bits, and the rest as the base.
abbrev pub Tracks : Deframer → ℕ → Type 0
Tracks f at = (f.last_ts ≡ at % 2 ^ 32) × (f.base_ts ≡ at - at % 2 ^ 32)

-- A source whose clock moves forward by less than 2^31 ticks a packet is tracked.
pub advance_base_tracks :
    (base last at next : ℕ)
    → last ≡ at % 2 ^ 32
    → base ≡ at - at % 2 ^ 32
    → at ≤ next
    → next < at + 2 ^ 31
    → next < 2 ^ 64
    → advance_base base last (next % 2 ^ 32) ≡ next - next % 2 ^ 32
unfolding advance_base
advance_base_tracks base last at next l b le step fits = ground arith

deframe_returns :
    (fuel : ℕ) (f : Deframer) (rp : RtpPacket) {base t : ℕ} {p : Parser} {r : Result (List Packet)}
    → advance_base f.base_ts f.last_ts rp.timestamp ≡ base
    → from_ts ((base + rp.timestamp) % 2 ^ 64) f.clock_rate ≡ some t
    → parse_payload fuel f.parser rp.payload ≡ returned (p, r)
    → deframe fuel f rp
      ≡ returned (
        record f {
          parser = p;
          base_ts = base;
          last_ts = rp.timestamp;
          last_seq = rp.sequence_number;
        },
        stamp t r,
      )
unfolding deframe
deframe_returns fuel f rp base time parsed = ground arith

-- A deframer that tracks a source's clock, and gets a packet whose true timestamp is `next`, less
-- than 2^31 ticks on and below the overflow limit of FromTS, tracks `next` and stamps what the
-- parser returns with the duration of `next`, wherever the 32-bit clock has wrapped.
pub deframe-Tracks :
    (fuel : ℕ) (f : Deframer) (rp : RtpPacket) (at next : ℕ) (p : Parser) (r : Result (List Packet))
    → Tracks f at
    → at ≤ next
    → next < at + 2 ^ 31
    → next < 2 ^ 64
    → next * second / 2 ^ 64 < f.clock_rate
    → rp.timestamp ≡ next % 2 ^ 32
    → parse_payload fuel f.parser rp.payload ≡ returned (p, r)
    → deframe fuel f rp
      ≡ returned (
        record f {
          parser = p;
          base_ts = next - next % 2 ^ 32;
          last_ts = rp.timestamp;
          last_seq = rp.sequence_number;
        },
        stamp (next * second / f.clock_rate) r,
      )
deframe-Tracks fuel f rp at next p r tracks le step fits rate wire parsed =
    let whole : (next - next % 2 ^ 32 + rp.timestamp) % 2 ^ 64 ≡ next = omega arith in
    deframe_returns fuel f rp
      (rw wire (advance_base_tracks f.base_ts f.last_ts at next tracks.0 tracks.1 le step fits))
      (rw whole (from_ts_eq next f.clock_rate rate)) parsed

-- The bases after a list of wire timestamps.
abbrev pub run_clock : ℕ → ℕ → List ℕ → ℕ × ℕ
run_clock base last [] = (base, last)
run_clock base last (t ∷ ts) = run_clock (advance_base base last t) t ts

-- A packet of an earlier timestamp in the lower half of the clock moves the base by a whole turn.
pub reordered_jumps :
    (base last timestamp : ℕ)
    → timestamp < last
    → timestamp < 2 ^ 31
    → base + 2 ^ 32 < 2 ^ 64
    → advance_base base last timestamp ≡ base + 2 ^ 32
unfolding advance_base
reordered_jumps base last timestamp lt low fits = ground arith

-- The wire timestamps 2^31, 0, 2^31, 0, …
abbrev pub seesaw : ℕ → List ℕ
seesaw zero = []
seesaw (suc n) = 2 ^ 31 ∷ 0 ∷ seesaw n

seesaw_step :
    (base : ℕ)
    → base + 2 ^ 32 < 2 ^ 64
    → advance_base (advance_base base 0 (2 ^ 31)) (2 ^ 31) 0 ≡ base + 2 ^ 32
unfolding advance_base
seesaw_step base h = ground arith

seesaw_climbs_from :
    (n base : ℕ) → base + n * 2 ^ 32 < 2 ^ 64 → run_clock base 0 (seesaw n) ≡ (base + n * 2 ^ 32, 0)
seesaw_climbs_from zero base h = ground arith
seesaw_climbs_from (suc n) base h =
    ap (λ b. run_clock b 0 (seesaw n)) (seesaw_step base (omega arith))
    ∙ (seesaw_climbs_from n (base + 2 ^ 32) (omega arith) ∙ ap (λ b. (b, 0)) (omega arith))

-- A source that sends the timestamps 2^31 and 0 in turn moves the base on by 2^32 each time.
pub seesaw_climbs : (n : ℕ) → n < 2 ^ 32 → run_clock 0 0 (seesaw n) ≡ (n * 2 ^ 32, 0)
seesaw_climbs n h = seesaw_climbs_from n 0 (omega arith) ∙ ap (λ b. (b, 0)) (omega arith)

advance_base_bounds :
    (base last timestamp : ℕ)
    → base + 2 ^ 33 ≤ 2 ^ 64
    → (base ≤ advance_base base last timestamp) × (advance_base base last timestamp ≤ base + 2 ^ 32)
unfolding advance_base
advance_base_bounds base last timestamp fits = ground arith

-- Once the base of a 90 kHz deframer has reached 386548 turns, every packet makes Deframe panic.
pub deframe_overflow :
    (fuel : ℕ) (f : Deframer) (rp : RtpPacket)
    → f.clock_rate ≡ 90000
    → 386548 * 2 ^ 32 ≤ f.base_ts
    → f.base_ts + 2 ^ 33 ≤ 2 ^ 64
    → rp.timestamp < 2 ^ 32
    → deframe fuel f rp ≡ panicked
unfolding deframe
deframe_overflow fuel f rp rate high fits ts = ground (
  arith,
  advance_base_bounds f.base_ts f.last_ts rp.timestamp fits,
  from_ts_panics ((advance_base f.base_ts f.last_ts rp.timestamp + rp.timestamp) % 2 ^ 64)
      f.clock_rate,
)
