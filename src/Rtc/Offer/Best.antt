-- ===== src/Rtc/Offer/Best.antt =====
-- The second loop keeps the best of the codecs that it comes upon.
use gunk.Base.{
  ◌≤◌, ◌≡◌, ◌⊎◌, ◌↔◌, inl, inr, refl, Option, none, some, List, [], ◌∷◌, arith, ltb, Text, Any,
  Bool-cases,
}
use gunk.Rtc.Offer.{Attribute, Codec, codec_of, consider, best_codec, in_media}

-- The best of the codecs of which a predicate holds: one of the least payload type, or none.
abbrev pub IsBest : (Codec → Type 0) → Option Codec → Type 0
IsBest P none = (c : Codec) → ¬ P c
IsBest P (some best) = P best × ((c : Codec) → P c → best.payload_type ≤ c.payload_type)

IsBest-consider :
    (P : Codec → Type 0) (best found : Option Codec)
    → IsBest P best
    → IsBest (λ c. P c ⊎ (found ≡ some c)) (consider best found)
IsBest-consider P none none v = λ c h. elim h [ inl p ↦ v c p | inr e ↦ ground (arith, e) ]
IsBest-consider P (some b) none v =
    (inl v.0, λ c h. elim h [ inl p ↦ v.1 c p | inr e ↦ ground (arith, e) ])
IsBest-consider P none (some d) v =
    (inr refl, λ c h. elim h [ inl p ↦ absurd (v c p) | inr e ↦ ground (arith, e) ])
IsBest-consider P (some b) (some d) v = elim (Bool-cases (ltb d.payload_type b.payload_type)) [
  | inl less ↦ rw less (
    inr refl,
    λ c h. elim h [ inl p ↦ ground (arith, v.1 c p, less) | inr e ↦ ground (arith, e) ],
  )
  | inr more ↦ rw more (inl v.0, λ c h. elim h [ inl p ↦ v.1 c p | inr e ↦ ground (arith, e) ])
]

pub IsBest-iff :
    (P Q : Codec → Type 0) (best : Option Codec)
    → ((c : Codec) → P c ↔ Q c)
    → IsBest P best
    → IsBest Q best
IsBest-iff P Q none same v = λ c q. v c ((same c).1 q)
IsBest-iff P Q (some b) same v = ((same b).0 v.0, λ c q. v.1 c ((same c).1 q))

pub sum_assoc : {A B C : Type 0} → ((A ⊎ B) ⊎ C) ↔ (A ⊎ (B ⊎ C))
sum_assoc = (
  λ h. elim h [ inl g ↦ elim g [ inl a ↦ inl a | inr b ↦ inr (inl b) ] | inr c ↦ inr (inr c) ],
  λ h. elim h [ inl a ↦ inl (inl a) | inr g ↦ elim g [ inl b ↦ inl (inr b) | inr c ↦ inr c ] ],
)

pub sum_right : {A B C : Type 0} → (B ↔ C) → (A ⊎ B) ↔ (A ⊎ C)
sum_right same = (
  λ h. elim h [ inl a ↦ inl a | inr b ↦ inr (same.0 b) ],
  λ h. elim h [ inl a ↦ inl a | inr c ↦ inr (same.1 c) ],
)

best_codec-IsBest :
    (types : List Text) (attrs : List Attribute) (P : Codec → Type 0) (best : Option Codec)
    → IsBest P best
    → IsBest (λ c. P c ⊎ Any (λ a. codec_of types a ≡ some c) attrs) (best_codec types attrs best)
unfolding best_codec
best_codec-IsBest types [] P best v =
    IsBest-iff P _ best (λ c. (λ p. inl p, λ h. elim h [ inl p ↦ p | inr e ↦ absurd e ])) v
best_codec-IsBest types (a ∷ attrs) P best v =
    let next = best_codec-IsBest types attrs _ _ (IsBest-consider P best (codec_of types a) v) in
    IsBest-iff _ _ _ (λ c. sum_assoc) next

codec_of-nil : (a : Attribute) → codec_of [] a ≡ none
unfolding codec_of
codec_of-nil a = ground arith

Any-none : (c : Codec) (attrs : List Attribute) → ¬ Any (λ a. codec_of [] a ≡ some c) attrs
Any-none c [] h = h
Any-none c (a ∷ attrs) h = elim h [
  | inl e ↦ ground (arith, codec_of-nil a, e)
  | inr rest ↦ Any-none c attrs rest
]

pub in_media-IsBest :
    (types : List Text) (attrs : List Attribute) (P : Codec → Type 0) (best : Option Codec)
    → IsBest P best
    → IsBest (λ c. P c ⊎ Any (λ a. codec_of types a ≡ some c) attrs) (in_media types attrs best)
in_media-IsBest (t ∷ ts) attrs P best v = best_codec-IsBest (t ∷ ts) attrs P best v
in_media-IsBest [] attrs P best v =
    IsBest-iff P _ best
      (λ c. (λ p. inl p, λ h. elim h [ inl p ↦ p | inr e ↦ absurd (Any-none c attrs e) ])) v
