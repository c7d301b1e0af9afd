-- ===== src/Rtc/Offer/Types.antt =====
-- The first loop finds the payload types that a media description declares for H.264.
use gunk.Base.{
  ◌≡◌, ◌∙◌, ◌⊎◌, ◌↔◌, inl, inr, refl, sym, ap, Bool, true, false, ◌||◌, Option, none, some, List,
  [], ◌∷◌, arith, Text, Any, Bool-cases, Option-cases,
}
use gunk.Rtc.Offer.{Attribute, index, note_rtpmap, h264_types, contains}
use gunk.Rtc.Offer.Index.{index-none, index-lacks}
use gunk.Rtc.Offer.Rtpmap.{Notes, Declares, is_bad, note_rtpmap-Notes}

abbrev pub any_bad : List Attribute → Bool
any_bad [] = false
any_bad (a ∷ attrs) = is_bad a || any_bad attrs

pub or_parts : (a b : Bool) → (a || b) ≡ false → (a ≡ false) × (b ≡ false)
or_parts true b h = ground (arith, h)
or_parts false b h = (refl, h)

-- The types behind the attributes of a media description.
abbrev pub NotesAll : List Attribute → List Text → Option (List Text) → Type 0
NotesAll attrs types out =
    (noted : List Text) × (out ≡ some noted)
    × ((pt : Text)
        → (contains pt noted ≡ true) ↔ ((contains pt types ≡ true) ⊎ Any (Declares pt) attrs))

Notes-cons :
    (a : Attribute) (attrs : List Attribute) (types : List Text) (out : Option (List Text))
    → Notes a types out
    → ((noted : List Text) → NotesAll attrs noted (h264_types attrs noted))
    → NotesAll (a ∷ attrs) types (elim out [ none ↦ none | some noted ↦ h264_types attrs noted ])
Notes-cons a attrs types none (noted, e, same) rest = absurd (ground (arith, e))
Notes-cons a attrs types (some other) (noted, e, same) rest =
    let (all, e', same') = rest other in
    let here : other ≡ noted = ground (arith, e) in
    (
      all,
      e',
      λ pt. (
        λ h. elim ((same' pt).0 h) [
          | inl old ↦ elim ((same pt).0 (ap (contains pt) (sym here) ∙ old)) [
            | inl o ↦ inl o
            | inr d ↦ inr (inl d)
          ]
          | inr later ↦ inr (inr later)
        ],
        λ h. (same' pt).1 (elim h [
          | inl old ↦ inl (ap (contains pt) here ∙ (same pt).1 (inl old))
          | inr g ↦ elim g [
            | inl d ↦ inl (ap (contains pt) here ∙ (same pt).1 (inr d))
            | inr later ↦ inr later
          ]
        ]),
      ),
    )

pub h264_types-NotesAll :
    (attrs : List Attribute) (types : List Text)
    → any_bad attrs ≡ false
    → NotesAll attrs types (h264_types attrs types)
unfolding h264_types
h264_types-NotesAll [] types fine =
    (types, refl, λ pt. (λ h. inl h, λ h. elim h [ inl e ↦ e | inr e ↦ absurd e ]))
h264_types-NotesAll (a ∷ attrs) types fine =
    let (here, rest) = or_parts (is_bad a) (any_bad attrs) fine in
    Notes-cons a attrs types (note_rtpmap a types) (note_rtpmap-Notes a types here)
      (λ noted. h264_types-NotesAll attrs noted rest)

note_rtpmap-none :
    (a : Attribute) (types : List Text) → is_bad a ≡ true → note_rtpmap a types ≡ none
unfolding note_rtpmap
note_rtpmap-none a types bad =
    let no_space = index-lacks b' ' a.value (ground (arith, bad)) in
    elim (Option-cases (index b'/' a.value)) [
      | inl no_slash ↦ ground (arith, bad, index-none b'/' a.value no_slash)
      | inr (j, found) ↦ ground (arith, bad, no_space, found)
    ]

none_behind :
    (attrs : List Attribute) (out : Option (List Text))
    → ((noted : List Text) → h264_types attrs noted ≡ none)
    → (elim out [ none ↦ none | some noted ↦ h264_types attrs noted ]) ≡ none
none_behind attrs none rest = refl
none_behind attrs (some noted) rest = rest noted

pub h264_types-none :
    (attrs : List Attribute) (types : List Text)
    → any_bad attrs ≡ true
    → h264_types attrs types ≡ none
unfolding h264_types
h264_types-none [] types bad = ground arith
h264_types-none (a ∷ attrs) types bad = elim (Bool-cases (is_bad a)) [
  | inl here ↦ rw (note_rtpmap-none a types here, h264_types) refl
  | inr fine ↦
      let later = ap (λ b. b || any_bad attrs) (sym fine) ∙ bad in
      none_behind attrs (note_rtpmap a types) (λ noted. h264_types-none attrs noted later)
]
