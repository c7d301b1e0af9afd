-- ===== src/Base/Strings.antt =====
-- Go strings and byte slices as lists of numbers: bytes, or the code points of a line of text.
use Prim.Native.Nat.{ℕ, ◌/◌, ◌%◌, ◌^◌, ◌<◌}
use Prim.Native.Char.{code}
use Prim.Native.String.{String}
use mathlib.Core.Path.{◌≡◌, refl}
use mathlib.Core.Logic.{◌≢◌, ◌↔◌}
use mathlib.Core.Bool.{Bool, true, false, ◌&&◌}
use mathlib.Core.List.{List, [], ◌∷◌, ◌++◌}
use native.Mathlib.Omega.{arith}
use gunk.Base.Tests.{◌==◌}
use gunk.Base.Lists.{length}

abbrev pub Text : Type 0
Text = List ℕ

-- The code points of a literal.
abbrev pub codes : String → Text
codes String.[] = []
codes (String.◌∷◌ c s) = code c ∷ codes s

abbrev pub text_eq : Text → Text → Bool
text_eq [] [] = true
text_eq [] (_ ∷ _) = false
text_eq (_ ∷ _) [] = false
text_eq (a ∷ s) (b ∷ t) = a == b && text_eq s t

pub text_eq→eq : (s t : Text) → text_eq s t ≡ true → s ≡ t
text_eq→eq [] [] h = refl
text_eq→eq [] (_ ∷ _) h = ground arith
text_eq→eq (_ ∷ _) [] h = ground arith
text_eq→eq (a ∷ s) (b ∷ t) h = ground (arith, text_eq→eq s t)

pub text_eq_refl : (s : Text) → text_eq s s ≡ true
text_eq_refl [] = refl
text_eq_refl (a ∷ s) = ground (arith, text_eq_refl s)

pub text_eq_iff : (s t : Text) → (text_eq s t ≡ true) ↔ (s ≡ t)
text_eq_iff s t = (text_eq→eq s t, λ e. ground (arith, text_eq_refl s, e))

abbrev pub IsByte : ℕ → Type 0
IsByte b = b < 256

-- binary.BigEndian.PutUint32: the four bytes of a uint32.
unfoldable pub be32 : ℕ → Text
be32 v = (v / 16777216 % 256) ∷ (v / 65536 % 256) ∷ (v / 256 % 256) ∷ (v % 256) ∷ []

-- Different uint32 values have different bytes.
pub be32_injective : (v w : ℕ) → v < 2 ^ 32 → w < 2 ^ 32 → be32 v ≡ be32 w → v ≡ w
unfolding be32
be32_injective v w hv hw e = ground arith

pub length-be32 : (v : ℕ) → length (be32 v) ≡ 4
unfolding be32
length-be32 v = refl

pub text_eq_ne : (s t : Text) → s ≢ t → text_eq s t ≡ false
text_eq_ne s t h = ground (arith, text_eq_iff s t)

-- The rests of two texts whose beginnings are of one length.
pub append_cancel : (a b s t : Text) → length a ≡ length b → a ++ s ≡ b ++ t → s ≡ t
append_cancel [] [] s t l e = e
append_cancel [] (_ ∷ _) s t l e = absurd (omega arith)
append_cancel (_ ∷ _) [] s t l e = absurd (omega arith)
append_cancel (x ∷ a) (y ∷ b) s t l e = append_cancel a b s t (omega arith) (ground arith)
