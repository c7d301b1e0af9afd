-- ===== src/Ftl/Deframer/Aggregates.antt =====
-- STAP-A: the NAL units of an aggregate (RFC 6184, 5.7.1) come out one packet each, in order.
use native.Mathlib.Nat.{add_comm}
use native.Mathlib.Numerals.{towards_suc}
use gunk.Base.{
  ℕ, zero, suc, ◌+◌, ◌*◌, ◌/◌, ◌%◌, ◌≤◌, ◌<◌, ◌≡◌, ◌∙◌, ap, List, [], ◌∷◌, ◌++◌, arith, Text,
  append_assoc, some, map, length, All, take-append_length, drop-append_length, length-append,
  append-nil,
}
use gunk.Ftl.Deframer.{
  H264Parser, Packet, ok, Parsed, nalu_type, stap_loop, parse_frame, plain_packet,
}
use gunk.Ftl.Deframer.Fragments.{IsHandedOn}

-- A NAL unit of two bytes or more: its first octet, its second, and the rest.
pub record Unit2 : Type 0 where
  pub octet : ℕ
  pub second : ℕ
  pub rest : Text

abbrev pub bytes : Unit2 → Text
bytes u = u.octet ∷ u.second ∷ u.rest

-- The unit behind its 16-bit size.
abbrev sized : Unit2 → Text
sized u = (length (bytes u) / 256) ∷ (length (bytes u) % 256) ∷ bytes u

abbrev pub aggregate : List Unit2 → Text
aggregate [] = []
aggregate (u ∷ us) = sized u ++ aggregate us

abbrev pub Fits : Unit2 → Type 0
Fits u = IsHandedOn u.octet × (length (bytes u) < 65536)

-- One unit in front of the rest.
stap_unit :
    (parse : H264Parser → Text → Parsed) (rounds : ℕ) (p : H264Parser) (u : Unit2) (rest : Text)
    (out more : List Packet)
    → parse p (bytes u) ≡ some (p, ok more)
    → stap_loop parse (suc rounds) p (sized u ++ rest) out
      ≡ stap_loop parse rounds p rest (out ++ more)
unfolding stap_loop
stap_unit parse rounds p u rest out more parsed = ground (
  arith,
  take-append_length (bytes u) rest,
  drop-append_length (bytes u) rest,
  length-append (bytes u) rest,
  size_lem (length (bytes u)),
)
  where
    size_lem : (n : ℕ) → n / 256 * 256 + n % 256 ≡ n
    size_lem n = omega arith

plain_parse :
    (fuel : ℕ) (p : H264Parser) (u : Unit2)
    → IsHandedOn u.octet
    → parse_frame (suc fuel) p (bytes u) ≡ some (p, ok (plain_packet u.octet (bytes u) ∷ []))
unfolding parse_frame
plain_parse fuel p u handed = ground arith

abbrev pub packets_of : List Unit2 → List Packet
packets_of = map (λ u. plain_packet u.octet (bytes u))

stap_loop-aggregate :
    (fuel rounds : ℕ) (p : H264Parser) (us : List Unit2) (out : List Packet)
    → All Fits us
    → length us ≤ rounds
    → stap_loop (parse_frame (suc fuel)) rounds p (aggregate us) out
      ≡ some (p, ok (out ++ packets_of us))
unfolding stap_loop
stap_loop-aggregate fuel zero p [] out fit le = rw append-nil
stap_loop-aggregate fuel (suc rounds) p [] out fit le = rw append-nil
stap_loop-aggregate fuel zero p (u ∷ us) out fit le = absurd (omega arith)
stap_loop-aggregate fuel (suc rounds) p (u ∷ us) out fit le =
    stap_unit (parse_frame (suc fuel)) rounds p u (aggregate us) out
      (plain_packet u.octet (bytes u) ∷ []) (plain_parse fuel p u fit.0.0)
    ∙ stap_loop-aggregate fuel rounds p us (out ++ plain_packet u.octet (bytes u) ∷ []) fit.1
        (omega arith)
    ∙ ap (λ l. some (p, ok l))
        (append_assoc out (plain_packet u.octet (bytes u) ∷ []) (packets_of us))

length-aggregate : (us : List Unit2) → length us ≤ length (aggregate us)
length-aggregate [] = omega arith
length-aggregate (u ∷ us) =
    omega (arith, length-aggregate us, length-append {0} (sized u) (aggregate us))

-- An aggregate of one unit or more, each of a type that is handed on, of two bytes or more and
-- shorter than 2^16 bytes,
-- gives one packet for each unit, in order, and leaves the parser as it was.
pub parse_frame-aggregate :
    (fuel : ℕ) (p : H264Parser) (header : ℕ) (u : Unit2) (us : List Unit2)
    → nalu_type header ≡ 24
    → All Fits (u ∷ us)
    → parse_frame (2 + fuel) p (header ∷ aggregate (u ∷ us)) ≡ some (p, ok (packets_of (u ∷ us)))
unfolding parse_frame
parse_frame-aggregate fuel p header u us stap fit = rw (add_comm 2 fuel) (
    simp towards_suc (
      ground (
        arith,
        stap_loop-aggregate fuel (length (aggregate (u ∷ us))) p (u ∷ us) [] fit
            (length-aggregate (u ∷ us)),
      )))
