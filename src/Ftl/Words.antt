-- ===== src/Ftl/Words.antt =====
-- The text functions of Go's library that the FTL handlers call, on the code points of a line:
-- strings.Fields, strings.EqualFold against an ASCII word, strconv.ParseUint and hex.DecodeString.
use Prim.Native.Nat.{ℕ, ◌+◌, ◌-◌, ◌*◌, ◌/◌, ◌%◌, ◌^◌, ◌<◌}
use gunk.Base.{
  ◌≡◌, ◌↔◌, Bool-cases, refl, Bool, true, false, ◌&&◌, ◌||◌, Option, none, some, List, [], ◌∷◌,
  arith, ltb, leb, ◌==◌, if◌then◌else◌, Text, codes, All, IsByte, inl, inr,
}

-- unicode.IsSpace
unfoldable pub is_space : ℕ → Bool
is_space c =
    (leb 9 c && leb c 13)
    || c == 32
    || c == 0x85
    || c == 0xA0
    || c == 0x1680
    || (leb 0x2000 c && leb c 0x200a)
    || c == 0x2028
    || c == 0x2029
    || c == 0x202f
    || c == 0x205f
    || c == 0x3000

-- A word under way in front of the words that follow it.
abbrev end_word : Text → List Text → List Text
end_word [] words = words
end_word (c ∷ cs) words = (c ∷ cs) ∷ words

-- The word at the start of the text, and the words behind it.
split_words : Text → Text × List Text
unfolding is_space
split_words [] = ([], [])
split_words (c ∷ cs) =
    let (word, words) = split_words cs in
    if is_space c then ([], end_word word words) else (c ∷ word, words)

-- strings.Fields
unfoldable pub fields : Text → List Text
unfolding split_words
fields line = let (word, words) = split_words line in end_word word words

abbrev lower : ℕ → ℕ
lower c = if leb 65 c && leb c 90 then c + 32 else c

-- strings.EqualFold(s, word) for a word with no `k` or `s`, the letters that fold beyond ASCII.
unfoldable pub equal_fold : Text → Text → Bool
equal_fold [] [] = true
equal_fold [] (_ ∷ _) = false
equal_fold (_ ∷ _) [] = false
equal_fold (c ∷ cs) (d ∷ ds) = lower c == lower d && equal_fold cs ds

-- strings.HasPrefix(s, "$") and the byte cut off.
unfoldable pub trim_dollar : Text → Text
trim_dollar [] = []
trim_dollar (c ∷ cs) = if c == 36 then cs else c ∷ cs

parse_digits : ℕ → Text → Option ℕ
parse_digits n [] = some n
parse_digits n (c ∷ cs) =
    let rest = parse_digits (n * 10 + (c - 48)) cs in if leb 48 c && leb c 57 then rest else none

-- strconv.ParseUint(s, 10, bits): `none` on a syntax error and on a value out of range.
unfoldable pub parse_uint : Text → ℕ → Option ℕ
unfolding parse_digits
parse_uint [] bits = none
parse_uint (c ∷ cs) bits = elim (parse_digits 0 (c ∷ cs)) [
  | none ↦ none
  | some n ↦ if ltb n (2 ^ bits) then some n else none
]

-- The value of a hexadecimal digit.
unfoldable pub hex_digit : ℕ → Option ℕ
hex_digit c =
    if leb 48 c && leb c 57
    then some (c - 48)
    else if leb 97 c && leb c 102
    then some (c - 87)
    else if leb 65 c && leb c 70
    then some (c - 55)
    else none

abbrev hex_byte : Option ℕ → Option ℕ → Option Text → Option Text
hex_byte (some hi) (some lo) (some rest) = some ((hi * 16 + lo) ∷ rest)
hex_byte none _ _ = none
hex_byte _ none _ = none
hex_byte _ _ none = none

-- hex.DecodeString: `none` on a bad digit and on an odd length.
unfoldable pub decode_hex : Text → Option Text
decode_hex [] = some []
decode_hex (_ ∷ []) = none
decode_hex (hi ∷ lo ∷ rest) = hex_byte (hex_digit hi) (hex_digit lo) (decode_hex rest)

-- A digit of fmt's %x.
unfoldable pub encode_digit : ℕ → ℕ
encode_digit n = if ltb n 10 then n + 48 else n + 87

-- fmt.Sprintf("%x", bytes)
unfoldable pub encode_hex : Text → Text
encode_hex [] = []
encode_hex (b ∷ bs) = encode_digit (b / 16) ∷ encode_digit (b % 16) ∷ encode_hex bs

-- A number that ParseUint accepts is within its width.
pub parse_uint-lt : (s : Text) (bits : ℕ) {n : ℕ} → parse_uint s bits ≡ some n → n < 2 ^ bits
unfolding parse_uint
parse_uint-lt [] bits h = ground arith
parse_uint-lt (c ∷ cs) bits h = ground arith

hex_digit_lem : (n : ℕ) → n < 16 → hex_digit (encode_digit n) ≡ some n
unfolding hex_digit encode_digit
hex_digit_lem n h = ground arith

-- The bytes that are printed in hexadecimal are read back.
pub decode_hex-encode_hex : (bs : Text) → All IsByte bs → decode_hex (encode_hex bs) ≡ some bs
unfolding decode_hex encode_hex
decode_hex-encode_hex [] bytes = refl
decode_hex-encode_hex (b ∷ bs) bytes =
    let high = hex_digit_lem (b / 16) (omega arith) in
    let low = hex_digit_lem (b % 16) (omega arith) in
    ground (arith, high, low, decode_hex-encode_hex bs bytes.1)

-- No word that Fields returns is empty.
fields_words :
    fields (codes "  CONNECT 123\t$ab ") ≡ codes "CONNECT" ∷ codes "123" ∷ codes "$ab" ∷ []
unfolding fields
fields_words = refl

end_word-nil : (w : Text) (ws : List Text) → end_word w ws ≡ [] → (w ≡ []) × (ws ≡ [])
end_word-nil [] ws h = (refl, h)
end_word-nil (c ∷ cs) ws h = ground arith

-- Nothing but white space is split off, exactly in white space.
split_nil :
    (cs : Text)
    → (((split_words cs).0 ≡ []) × ((split_words cs).1 ≡ [])) ↔ All (λ c. is_space c ≡ true) cs
unfolding split_words
split_nil [] = ground arith
split_nil (c ∷ cs) = elim (Bool-cases (is_space c)) [
  | inl space ↦ (
    λ h.
        let nils = end_word-nil (split_words cs).0 (split_words cs).1 (ground arith) in
        (space, (split_nil cs).0 nils),
    λ h. let nils = (split_nil cs).1 h.1 in ground (arith, nils),
  )
  | inr other ↦ (λ h. ground arith, λ h. ground arith)
]

-- Fields finds no word exactly in white space.
pub fields-nil : (line : Text) → (fields line ≡ []) ↔ All (λ c. is_space c ≡ true) line
unfolding fields
fields-nil line = (
  λ h. (split_nil line).0 (end_word-nil (split_words line).0 (split_words line).1 h),
  λ h. ground (arith, (split_nil line).1 h),
)
