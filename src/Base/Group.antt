-- ===== src/Base/Group.antt =====
-- A group of goroutines of golang.org/x/sync/errgroup, made by WithContext, by what its
-- documentation says: the context is cancelled by the first function that returns an error, or by
-- Wait's return, and Wait returns the first error.
use gunk.Base.{
  List, [], ◌∷◌, ap, ◌∙◌, not, arith, refl, sym, if◌then◌else◌, ◌≡◌, Bool, true, false, ◌||◌,
  Option, none, some, is_some,
}

abbrev pub first_of {ℓ} : {A : Type ℓ} → Option A → Option A → Option A
first_of none o = o
first_of (some a) o = some a

-- What the laws let a group do: `finish` is the return of a function of the group, `wait` that of
-- Wait.
pub record ErrGroup (G E : Type 0) : Type 0 where
  pub fresh : G
  pub finish : Option E → G → G
  pub wait : G → G
  pub err : G → Option E
  pub cancelled : G → Bool
  pub err-fresh : err fresh ≡ none
  pub cancelled-fresh : cancelled fresh ≡ false
  pub err-finish : (o : Option E) (g : G) → err (finish o g) ≡ first_of (err g) o
  pub cancelled-finish :
      (o : Option E) (g : G) → cancelled (finish o g) ≡ (cancelled g || is_some o)
  pub err-wait : (g : G) → err (wait g) ≡ err g
  pub cancelled-wait : (g : G) → cancelled (wait g) ≡ true

pub first_of-first_of {ℓ} :
    {A : Type ℓ} (a o t : Option A) → first_of (first_of a o) t ≡ first_of a (first_of o t)
first_of-first_of none o t = refl
first_of-first_of (some a) o t = refl

pub first_of-none {ℓ} : {A : Type ℓ} (a : Option A) → first_of a none ≡ a
first_of-none none = refl
first_of-none (some a) = refl

pub or_true : (b : Bool) → (b || true) ≡ true
or_true b = ground arith

module _ {G E : Type 0} (eg : ErrGroup G E) where
  -- A function of the group ends, or it has ended before.
  pub ended-err :
      (g : G) (b : Bool) (o : Option E)
      → b ≡ true
      → eg.err (eg.finish o g) ≡ first_of (eg.err g) (if b then o else none)
  ended-err g b o c = rw c (eg.err-finish o g)

  pub same-err :
      (g : G) (b : Bool) (o : Option E)
      → b ≡ false
      → eg.err g ≡ first_of (eg.err g) (if b then o else none)
  same-err g b o c = rw c (sym (first_of-none (eg.err g)))

  some-first_of :
      (a o : Option E) (c : Bool)
      → (not (is_some a) || c) ≡ true
      → (not (is_some (first_of a o)) || (c || is_some o)) ≡ true
  some-first_of none none c h = refl
  some-first_of none (some e) c h = ground arith
  some-first_of (some a) o c h = ground (arith, h)

  -- An error of the group has cancelled its context.
  pub cancels-finish :
      (o : Option E) (g : G)
      → (not (is_some (eg.err g)) || eg.cancelled g) ≡ true
      → (not (is_some (eg.err (eg.finish o g))) || eg.cancelled (eg.finish o g)) ≡ true
  cancels-finish o g h =
      rw (eg.err-finish o g, eg.cancelled-finish o g, some-first_of (eg.err g) o (eg.cancelled g) h)

  pub waited-cancels :
      (g : G) → (not (is_some (eg.err (eg.wait g))) || eg.cancelled (eg.wait g)) ≡ true
  waited-cancels g = rw (eg.cancelled-wait g, or_true (not (is_some (eg.err (eg.wait g)))))

-- Steps one after the other.
abbrev pub steps {ℓ κ} : {S : Type ℓ} {Ev : Type κ} → (S → Ev → S) → S → List Ev → S
steps step s [] = s
steps step s (e ∷ es) = steps step (step s e) es

-- The first error of the functions of a group, where `fails` says which error an event adds while what runs
-- is as the flags say, and `after` what runs then.
abbrev pub tally {ℓ κ μ} :
    {E : Type ℓ} {Flags : Type κ} {Ev : Type μ}
    → (Flags → Ev → Option E)
    → (Flags → Ev → Flags)
    → Flags
    → List Ev
    → Option E
tally fails after f [] = none
tally fails after f (e ∷ es) = first_of (fails f e) (tally fails after (after f e) es)

pub pair_ext : (l m : Bool × Bool) → l.0 ≡ m.0 → l.1 ≡ m.1 → l ≡ m
pair_ext (a, b) (c, d) e f =
    ap (λ (x : Bool). let l : Bool × Bool = (x, b) in l) e
    ∙ ap (λ (y : Bool). let l : Bool × Bool = (c, y) in l) f

pub triple_ext : (l m : Bool × Bool × Bool) → l.0 ≡ m.0 → l.1 ≡ m.1 → l.2 ≡ m.2 → l ≡ m
triple_ext (a, b, z) (c, d, w) e f g =
    ap (λ (x : Bool). let l : Bool × Bool × Bool = (x, b, z) in l) e
    ∙ (ap (λ (y : Bool). let l : Bool × Bool × Bool = (c, y, z) in l) f
        ∙ ap (λ (y : Bool). let l : Bool × Bool × Bool = (c, d, y) in l) g)

-- A machine whose steps each add what `fails` says to the errors of its group has the first error of all.
module _ {G E S Flags Ev : Type 0} (eg : ErrGroup G E) (group : S → G) (flags : S → Flags)
    (step : S → Ev → S) (fails : Flags → Ev → Option E) (after : Flags → Ev → Flags)
    (adds : (s : S) (e : Ev)
      → eg.err (group (step s e)) ≡ first_of (eg.err (group s)) (fails (flags s) e))
    (moves : (s : S) (e : Ev) → flags (step s e) ≡ after (flags s) e) where
  pub err-steps :
      (s : S) (es : List Ev)
      → eg.err (group (steps step s es))
        ≡ first_of (eg.err (group s)) (tally fails after (flags s) es)
  err-steps s [] = sym (first_of-none (eg.err (group s)))
  err-steps s (e ∷ es) =
      err-steps (step s e) es
      ∙ (ap (λ f. first_of (eg.err (group (step s e))) (tally fails after f es)) (moves s e)
          ∙ (ap (λ x. first_of x (tally fails after (after (flags s) e) es)) (adds s e)
              ∙ first_of-first_of (eg.err (group s)) (fails (flags s) e)
                  (tally fails after (after (flags s) e) es)))
