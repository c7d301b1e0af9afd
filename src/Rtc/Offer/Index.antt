-- ===== src/Rtc/Offer/Index.antt =====
-- Searches in a text, and the parts that a place divides it into.
use gunk.Base.{
  ℕ, zero, suc, ◌<◌, ◌≡◌, refl, Bool, true, false, ◌&&◌, none, some, [], ◌∷◌, ◌++◌, arith, ◌==◌,
  if◌then◌else◌, Text, take, drop, length,
}
use gunk.Rtc.Offer.{index}

abbrev pub lacks : ℕ → Text → Bool
lacks x [] = true
lacks x (c ∷ cs) = if c == x then false else lacks x cs

-- A place that is found divides the text at the first such character.
pub index-split :
    (x : ℕ) (t : Text) (i : ℕ)
    → index x t ≡ some i
    → (t ≡ take i t ++ x ∷ drop (suc i) t) × (lacks x (take i t) ≡ true)
unfolding index
index-split x [] i at = ground arith
index-split x (c ∷ cs) zero at = ground arith
index-split x (c ∷ cs) (suc i) at = ground (arith, index-split x cs i)

pub index-none : (x : ℕ) (t : Text) → index x t ≡ none → lacks x t ≡ true
unfolding index
index-none x [] at = refl
index-none x (c ∷ cs) at = ground (arith, index-none x cs)

pub index-append : (x : ℕ) (p q : Text) → lacks x p ≡ true → index x (p ++ x ∷ q) ≡ some (length p)
unfolding index
index-append x [] q h = ground arith
index-append x (c ∷ cs) q h = ground (arith, index-append x cs q)

pub index-lacks : (x : ℕ) (t : Text) → lacks x t ≡ true → index x t ≡ none
unfolding index
index-lacks x [] h = refl
index-lacks x (c ∷ cs) h = ground (arith, index-lacks x cs)

pub lacks-append : (x : ℕ) (p q : Text) → lacks x (p ++ q) ≡ (lacks x p && lacks x q)
lacks-append x [] q = refl
lacks-append x (c ∷ cs) q = ground (arith, lacks-append x cs q)

-- The text up to a later place goes on behind the first.
pub take-index :
    (x : ℕ) (t : Text) (i j : ℕ)
    → index x t ≡ some i
    → i < j
    → take j t ≡ take i t ++ x ∷ drop (suc i) (take j t)
unfolding index
take-index x [] i j at lt = ground arith
take-index x (c ∷ cs) i zero at lt = absurd (omega arith)
take-index x (c ∷ cs) zero (suc j) at lt = ground arith
take-index x (c ∷ cs) (suc i) (suc j) at lt = ground (arith, take-index x cs i j)
