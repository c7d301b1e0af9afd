-- ===== src/Ingest/Channel/Expiry.antt =====
-- The HLS output of a channel whose publisher has gone.
use gunk.Base.{◌≡◌, ◌-◌, true, some, [], ◌∷◌, ◌++◌, arith, ℕ, if◌then◌else◌, leb}
use gunk.Ingest.Channel.{
  Channel, closes_hls, discontinuity, set_stream, stop_stream, cleanup, hls_expiry,
}
use gunk.Ingest.Channel.Consistent.{IsConsistent}

-- Cleanup never touches a live channel.
pub cleanup-live : (ch : Channel) (now : ℕ) → IsConsistent ch → ch.live ≡ true → cleanup now ch ≡ ch
unfolding cleanup
cleanup-live ch now v on = ground arith

-- A publisher that comes back, after a cleanup in between, goes on with the same HLS output behind
-- a discontinuity if the cleanup ran at most 60 seconds after the end; otherwise the output has
-- been closed and a new one begins.
pub restart :
    (ch : Channel) (q p t now q' aacq opusq fresh : ℕ)
    → ch.ingest ≡ some q
    → ch.hls ≡ some p
    → let stopped = cleanup now (stop_stream q t ch) in
      let again = set_stream q' aacq opusq fresh stopped in
      (again.hls ≡ some (if leb (now - t) hls_expiry then p else fresh))
      × (again.effects
          ≡ ch.effects ++ (if leb (now - t) hls_expiry then discontinuity p else closes_hls p) ∷ [])
unfolding cleanup stop_stream set_stream
restart ch q p t now q' aacq opusq fresh from out = ground arith
