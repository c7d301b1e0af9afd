-- ===== src/Rtc/Offer/Choice.antt =====
-- Which codec is chosen, against what an offer says.
use gunk.Base.{
  suc, ◌≤◌, ◌≡◌, ◌∙◌, ◌⊎◌, ◌↔◌, inl, inr, refl, sym, ap, Bool, true, false, ◌||◌, Option, none,
  some, List, [], ◌∷◌, ◌++◌, arith, Text, codes, text_eq_iff, take, drop, length, Any, Bool-cases,
  Option-cases, take-append_length,
}
use gunk.Ftl.Words.{parse_uint}
use gunk.Rtc.Offer.{
  Attribute, index, Codec, contains, codec_of, in_media, candidate, default_codec, chosen, panics,
  chosen_of, choose_codec,
}
use gunk.Rtc.Offer.Index.{lacks, index-split, index-append}
use gunk.Rtc.Offer.Rtpmap.{drop-behind, Declares}
use gunk.Rtc.Offer.Best.{IsBest, IsBest-iff, sum_assoc, sum_right, in_media-IsBest}
use gunk.Rtc.Offer.Types.{any_bad, or_parts, h264_types-NotesAll, h264_types-none}

abbrev pub panics_on : List (List Attribute) → Bool
panics_on [] = false
panics_on (attrs ∷ media) = any_bad attrs || panics_on media

-- An fmtp attribute, "<type> <parameters>".
pub record Describes (payload_type fmtp : Text) (a : Attribute) : Type 0 where
  pub is_fmtp : a.key ≡ codes "fmtp"
  pub reads : a.value ≡ payload_type ++ b' ' ∷ fmtp
  pub no_space : lacks b' ' payload_type ≡ true

-- A media description offers a codec if one of its attributes declares the payload type for H.264
-- and one describes it, and the type is a number of 8 bits.
pub record OffersHere (c : Codec) (attrs : List Attribute) : Type 0 where
  pub payload_type : Text
  pub declared : Any (Declares payload_type) attrs
  pub described : Any (Describes payload_type c.fmtp) attrs
  pub numbered : parse_uint payload_type 8 ≡ some c.payload_type

abbrev pub Offers : List (List Attribute) → Codec → Type 0
Offers media c = Any (OffersHere c) media

Any-map :
    (P Q : Attribute → Type 0) (attrs : List Attribute)
    → ((a : Attribute) → P a → Q a)
    → Any P attrs
    → Any Q attrs
Any-map P Q [] f h = h
Any-map P Q (a ∷ attrs) f h = elim h [
  | inl p ↦ inl (f a p)
  | inr rest ↦ inr (Any-map P Q attrs f rest)
]

-- What an attribute that gives a codec says.
record Gives (types : List Text) (c : Codec) (a : Attribute) : Type 0 where
  payload_type : Text
  known : contains payload_type types ≡ true
  describes : Describes payload_type c.fmtp a
  number : parse_uint payload_type 8 ≡ some c.payload_type

codec_of-Gives :
    (types : List Text) (a : Attribute) (c : Codec) → codec_of types a ≡ some c → Gives types c a
unfolding codec_of
codec_of-Gives types a c h = elim (Option-cases (index b' ' a.value)) [
  | inl nowhere ↦ absurd (ground (arith, h, nowhere))
  | inr (i, at) ↦ record {
    payload_type = take i a.value;
    known = ground (arith, h, at);
    describes = record {
      is_fmtp = ground (arith, h, text_eq_iff a.key (codes "fmtp"));
      reads = ground (arith, h, at, index-split b' ' a.value i at);
      no_space = (index-split b' ' a.value i at).1;
    };
    number = ground (arith, h, at);
  }
]

Gives-codec_of :
    (types : List Text) (a : Attribute) (c : Codec) → Gives types c a → codec_of types a ≡ some c
unfolding codec_of
Gives-codec_of types a c g =
    let d = g.describes in
    let at = ap (index b' ') d.reads ∙ index-append b' ' g.payload_type c.fmtp d.no_space in
    let front =
      ap (take (length g.payload_type)) d.reads
      ∙ take-append_length g.payload_type (b' ' ∷ c.fmtp) in
    let back =
      ap (drop (suc (length g.payload_type))) d.reads ∙ drop-behind g.payload_type b' ' c.fmtp in
    ground (arith, at, front, back, g, (text_eq_iff a.key (codes "fmtp")).1 d.is_fmtp)

Any-known :
    (types : List Text) (c : Codec) (attrs : List Attribute)
    → Any (Gives types c) attrs
    → (pt : Text) × (contains pt types ≡ true)
      × Any (Describes pt c.fmtp) attrs
      × (parse_uint pt 8 ≡ some c.payload_type)
Any-known types c [] h = absurd h
Any-known types c (a ∷ attrs) h = elim h [
  | inl g ↦ (g.payload_type, g.known, inl g.describes, g.number)
  | inr rest ↦
      let (pt, known, described, number) = Any-known types c attrs rest in
      (pt, known, inr described, number)
]

offers_iff :
    (types : List Text) (attrs : List Attribute) (c : Codec)
    → ((pt : Text)
        → (contains pt types ≡ true) ↔ ((contains pt [] ≡ true) ⊎ Any (Declares pt) attrs))
    → Any (λ a. codec_of types a ≡ some c) attrs ↔ OffersHere c attrs
offers_iff types attrs c same = (
  λ h.
      let (pt, known, described, number) =
        Any-known types c attrs (Any-map _ _ attrs (λ a. codec_of-Gives types a c) h) in
      record {
        payload_type = pt;
        declared = elim ((same pt).0 known) [ inl bad ↦ absurd (ground (arith, bad)) | inr d ↦ d ];
        described = described;
        numbered = number;
      },
  λ o.
      Any-map _ _ attrs
        (λ a d. Gives-codec_of types a c (record {
          payload_type = o.payload_type;
          known = (same o.payload_type).1 (inr o.declared);
          describes = d;
          number = o.numbered;
        }))
        o.described,
)

-- The candidate behind some media descriptions, of which none makes the loop panic.
abbrev FindsBest : (Codec → Type 0) → Option (Option Codec) → Type 0
FindsBest P out = (best : Option Codec) × (out ≡ some best) × IsBest P best

candidate-FindsBest :
    (media : List (List Attribute)) (P : Codec → Type 0) (best : Option Codec)
    → panics_on media ≡ false
    → IsBest P best
    → FindsBest (λ c. P c ⊎ Offers media c) (candidate media best)
unfolding candidate
candidate-FindsBest [] P best fine v = (
  best,
  refl,
  IsBest-iff P _ best (λ c. (λ p. inl p, λ h. elim h [ inl p ↦ p | inr e ↦ absurd e ])) v,
)
candidate-FindsBest (attrs ∷ media) P best fine v =
    let (here, rest) = or_parts (any_bad attrs) (panics_on media) fine in
    let (types, e, same) = h264_types-NotesAll attrs [] here in
    let w = in_media-IsBest types attrs P best v in
    let x =
      IsBest-iff _ (λ c. P c ⊎ OffersHere c attrs) _
        (λ c. sum_right (offers_iff types attrs c same)) w in
    let (out, e', y) = candidate-FindsBest media _ (in_media types attrs best) rest x in
    (out, rw (e, candidate) e', IsBest-iff _ _ out (λ c. sum_assoc) y)

candidate-none :
    (media : List (List Attribute)) (best : Option Codec)
    → panics_on media ≡ true
    → candidate media best ≡ none
unfolding candidate
candidate-none [] best bad = ground arith
candidate-none (attrs ∷ media) best bad = elim (Bool-cases (any_bad attrs)) [
  | inl here ↦ rw (h264_types-none attrs [] here, candidate) refl
  | inr fine ↦
      let (types, e, same) = h264_types-NotesAll attrs [] fine in
      let later = ap (λ b. b || panics_on media) (sym fine) ∙ bad in
      rw (e, candidate) (candidate-none media (in_media types attrs best) later)
]

chosen-IsBest :
    (media : List (List Attribute)) (best : Option Codec)
    → IsBest (Offers media) best
    → (c : Codec) × (chosen_of (some best) ≡ chosen c)
      × ((Offers media c × ((d : Codec) → Offers media d → c.payload_type ≤ d.payload_type))
          ⊎ ((c ≡ default_codec) × ((d : Codec) → ¬ Offers media d)))
chosen-IsBest media none v = (default_codec, refl, inr (refl, v))
chosen-IsBest media (some best) v = (best, refl, inl v)

-- On an offer that can be parsed chooseCodec panics exactly if an rtpmap attribute has a slash and
-- no space. Otherwise it chooses an H.264 codec that the offer offers, one of the least payload
-- type, and the default codec exactly if the offer offers none.
pub choose_codec_exact :
    (media : List (List Attribute))
    → ((panics_on media ≡ true) × (choose_codec (some media) ≡ panics))
      ⊎ ((panics_on media ≡ false)
          × (c : Codec) × (choose_codec (some media) ≡ chosen c)
          × ((Offers media c × ((d : Codec) → Offers media d → c.payload_type ≤ d.payload_type))
              ⊎ ((c ≡ default_codec) × ((d : Codec) → ¬ Offers media d))))
unfolding choose_codec
choose_codec_exact media = elim (Bool-cases (panics_on media)) [
  | inl bad ↦ inl (bad, ap chosen_of (candidate-none media none bad))
  | inr fine ↦
      let (best, e, v) = candidate-FindsBest media (λ c. ⊥) none fine (λ c h. h) in
      let w =
        IsBest-iff _ (Offers media) best
          (λ c. (λ h. elim h [ inl never ↦ absurd never | inr o ↦ o ], λ o. inr o)) v in
      let (c, same, good) = chosen-IsBest media best w in inr (fine, c, ap chosen_of e ∙ same, good)
]
