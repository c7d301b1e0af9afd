-- ===== src/Rtc/Offer/Rtpmap.antt =====
-- What an rtpmap attribute of an offer says, and what the first loop notes of it.
use gunk.Base.{
  ℕ, suc, ◌+◌, ◌<◌, ◌≡◌, ◌∙◌, ◌⊎◌, ◌↔◌, inl, inr, refl, sym, ap, subst, Bool, true, false, ◌&&◌,
  not, Option, some, List, [], ◌∷◌, ◌++◌, append_assoc, arith, ltb, Text, codes, text_eq,
  text_eq_iff, take, drop, length, Bool-cases, Option-cases, take-append_length, length-append,
  length-drop, length-take_le, length-drop, length-take_le,
}
use gunk.Rtc.Offer.{Attribute, index, add_h264, note_rtpmap, contains}
use gunk.Rtc.Offer.Index.{
  lacks, index-split, index-none, index-append, index-lacks, lacks-append, take-index,
}

-- An rtpmap attribute that gives a payload type to H.264: "<type> H264/<rate>".
pub record Declares (payload_type : Text) (a : Attribute) : Type 0 where
  pub is_rtpmap : a.key ≡ codes "rtpmap"
  pub rest : Text
  pub reads : a.value ≡ payload_type ++ b' ' ∷ codes "H264" ++ b'/' ∷ rest
  pub no_space : lacks b' ' payload_type ≡ true
  pub no_slash : lacks b'/' payload_type ≡ true

-- An rtpmap attribute with a slash and no space.
abbrev pub is_bad : Attribute → Bool
is_bad a = text_eq a.key (codes "rtpmap") && lacks b' ' a.value && not (lacks b'/' a.value)

Declares-at :
    (a : Attribute) (i j : ℕ)
    → a.key ≡ codes "rtpmap"
    → index b' ' a.value ≡ some i
    → index b'/' a.value ≡ some j
    → i < j
    → drop (suc i) (take j a.value) ≡ codes "H264"
    → Declares (take i a.value) a
Declares-at a i j k si sj lt name =
    let (space, no_space) = index-split b' ' a.value i si in
    let (slash, before) = index-split b'/' a.value j sj in
    let p = take-index b' ' a.value i j si lt in
    record {
      is_rtpmap = k;
      rest = drop (suc j) a.value;
      reads =
          slash
          ∙ ap (λ l. l ++ b'/' ∷ drop (suc j) a.value)
              (p ∙ ap (λ l. take i a.value ++ b' ' ∷ l) name);
      no_space = no_space;
      no_slash = ground (
        arith,
        before,
        ap (lacks b'/') p,
        lacks-append b'/' (take i a.value) (b' ' ∷ drop (suc i) (take j a.value)),
      );
    }

pub drop-behind : (p : Text) (x : ℕ) (q : Text) → drop (suc (length p)) (p ++ x ∷ q) ≡ q
drop-behind [] x q = refl
drop-behind (c ∷ p) x q = drop-behind p x q

declared_at :
    (a : Attribute) (pt : Text)
    → Declares pt a
    → (index b' ' a.value ≡ some (length pt))
      × (index b'/' a.value ≡ some (length pt + 5))
      × (take (length pt) a.value ≡ pt)
      × (drop (suc (length pt)) (take (length pt + 5) a.value) ≡ codes "H264")
declared_at a pt d =
    let named = pt ++ b' ' ∷ codes "H264" in
    let reads : a.value ≡ named ++ b'/' ∷ d.rest = d.reads in
    let whole : a.value ≡ pt ++ (b' ' ∷ codes "H264" ++ (b'/' ∷ d.rest)) =
      d.reads ∙ append_assoc pt (b' ' ∷ codes "H264") (b'/' ∷ d.rest) in
    let long : length named ≡ length pt + 5 = length-append pt (b' ' ∷ codes "H264") in
    let none_before : lacks b'/' named ≡ true =
      lacks-append b'/' pt (b' ' ∷ codes "H264") ∙ ground (arith, d.no_slash) in
    let before : take (length pt + 5) a.value ≡ named =
      ap (λ n. take n a.value) (sym long)
      ∙ ap (take (length named)) reads
      ∙ take-append_length named (b'/' ∷ d.rest) in
    (
      ap (index b' ') whole ∙ index-append b' ' pt (codes "H264" ++ b'/' ∷ d.rest) d.no_space,
      ap (index b'/') reads ∙ index-append b'/' named d.rest none_before ∙ ap some long,
      ap (take (length pt)) whole ∙ take-append_length pt _,
      ap (drop (suc (length pt))) before ∙ drop-behind pt b' ' (codes "H264"),
    )

-- The types that an attribute leaves: those that there were and the one that it declares.
abbrev pub Notes : Attribute → List Text → Option (List Text) → Type 0
Notes a types out =
    (noted : List Text) × (out ≡ some noted)
    × ((pt : Text) → (contains pt noted ≡ true) ↔ ((contains pt types ≡ true) ⊎ Declares pt a))

pub differs : {s t : Text} → text_eq s t ≡ false → ¬ (s ≡ t)
differs {s} {t} other same = ground (arith, text_eq_iff s t)

Notes-same :
    (a : Attribute) (types : List Text)
    → ((pt : Text) → ¬ Declares pt a)
    → Notes a types (some types)
Notes-same a types none_declared = (
  types,
  refl,
  λ pt. (λ h. inl h, λ h. elim h [ inl old ↦ old | inr d ↦ absurd (none_declared pt d) ]),
)

declared_name :
    (a : Attribute) (i j : ℕ) (pt : Text)
    → index b' ' a.value ≡ some i
    → index b'/' a.value ≡ some j
    → Declares pt a
    → (i < j) × (take i a.value ≡ pt) × (drop (suc i) (take j a.value) ≡ codes "H264")
declared_name a i j pt si sj d =
    let (space, slash, front, name) = declared_at a pt d in
    let at_i : length pt ≡ i = ground (arith, space, si) in
    let at_j : length pt + 5 ≡ j = ground (arith, slash, sj) in
    (
      omega arith,
      ap (λ n. take n a.value) (sym at_i) ∙ front,
      ap (λ n. drop (suc n) (take j a.value)) (sym at_i)
          ∙ ap (λ n. drop (suc (length pt)) (take n a.value)) (sym at_j)
          ∙ name,
    )

-- A name between two places is not empty, so that the places are in order.
in_order : (t : Text) (i j : ℕ) → drop (suc i) (take j t) ≡ codes "H264" → i < j
in_order t i j name =
    omega (arith, length-drop (suc i) (take j t), length-take_le j t, ap length name)

Notes-name :
    (a : Attribute) (types : List Text) (i j : ℕ)
    → a.key ≡ codes "rtpmap"
    → index b' ' a.value ≡ some i
    → index b'/' a.value ≡ some j
    → ltb j i ≡ false
    → Notes a types (some (add_h264 (take i a.value) (drop (suc i) (take j a.value)) types))
Notes-name a types i j k si sj after =
    let name = drop (suc i) (take j a.value) in
    elim (Bool-cases (text_eq name (codes "H264"))) [
      | inr other ↦
          rw other (Notes-same a types (λ pt d. differs other (declared_name a i j pt si sj d).2))
      | inl is_h264 ↦
          let eq = (text_eq_iff name (codes "H264")).0 is_h264 in
          let found = Declares-at a i j k si sj (in_order a.value i j eq) eq in
          rw is_h264 (
            take i a.value ∷ types,
            refl,
            λ pt. (
              λ h. elim (Bool-cases (text_eq (take i a.value) pt)) [
                | inl same ↦
                    inr (subst (λ p. Declares p a) ((text_eq_iff (take i a.value) pt).0 same) found)
                | inr new ↦ inl (ground (arith, h, new))
              ],
              λ h. elim h [
                | inl old ↦ ground (arith, old)
                | inr d ↦
                    ground (
                      arith,
                      (text_eq_iff (take i a.value) pt).1 (declared_name a i j pt si sj d).1,
                    )
              ],
            ),
          )
    ]

pub note_rtpmap-Notes :
    (a : Attribute) (types : List Text) → is_bad a ≡ false → Notes a types (note_rtpmap a types)
unfolding note_rtpmap
note_rtpmap-Notes a types fine = elim (Bool-cases (text_eq a.key (codes "rtpmap"))) [
  | inr other ↦ rw other (Notes-same a types (λ pt d. differs other d.is_rtpmap))
  | inl key ↦
      let k = (text_eq_iff a.key (codes "rtpmap")).0 key in
      elim (Option-cases (index b'/' a.value)) [
        | inl no_slash ↦
            rw (key, no_slash)
              (Notes-same a types
                (λ pt d. absurd (ground (arith, no_slash, (declared_at a pt d).1))))
        | inr (j, sj) ↦ elim (Option-cases (index b' ' a.value)) [
          | inl no_space ↦ absurd (
              ground
                (arith, fine, key, index-none b' ' a.value no_space, index-lacks b'/' a.value, sj))
          | inr (i, si) ↦ elim (Bool-cases (ltb j i)) [
            | inl before ↦
                rw (key, sj, si, before)
                  (Notes-same a types
                    (λ pt d. absurd (ground (arith, (declared_name a i j pt si sj d).0, before))))
            | inr after ↦ rw (key, sj, si, after) (Notes-name a types i j k si sj after)
          ]
        ]
      ]
]
