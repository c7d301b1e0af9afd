-- ===== src/Web/Listeners/Alone.antt =====
-- The hub is its connections side by side.
use gunk.Base.{
  ℕ, zero, suc, ◌≡◌, some, List, [], ◌∷◌, ◌++◌, map, arith, get_elem?, if◌then◌else◌, ◌==◌,
}
use gunk.Web.Listeners.{
  Client, Event, registers, greets, broadcasts, receives, cancels, offer, broadcast, greet, receive,
  cancel, change, step, run,
}

module _ {ℓ} {Msg : Type ℓ} where
  -- What an event is for one connection.
  abbrev pub on_client : ℕ → Event Msg → Client Msg → Client Msg
  on_client i registers c = c
  on_client i (greets j msgs ok) c = if j == i then greet msgs ok c else c
  on_client i (broadcasts msg) c = offer msg c
  on_client i (receives j ok) c = if j == i then receive ok c else c
  on_client i (cancels j) c = if j == i then cancel c else c

  abbrev pub run_client : ℕ → List (Event Msg) → Client Msg → Client Msg
  run_client i [] c = c
  run_client i (e ∷ es) c = run_client i es (on_client i e c)

  get_elem?-change :
      (i j : ℕ) (f : Client Msg → Client Msg) (cs : List (Client Msg)) (c : Client Msg)
      → get_elem? cs i ≡ some c
      → get_elem? (change j f cs) i ≡ some (if j == i then f c else c)
  get_elem?-change i j f [] c at = ground arith
  get_elem?-change zero zero f (d ∷ cs) c at = ground arith
  get_elem?-change zero (suc j) f (d ∷ cs) c at = ground arith
  get_elem?-change (suc i) zero f (d ∷ cs) c at = ground arith
  get_elem?-change (suc i) (suc j) f (d ∷ cs) c at = ground (arith, get_elem?-change i j f cs c at)

  get_elem?-map :
      (f : Client Msg → Client Msg) (cs : List (Client Msg)) (i : ℕ) (c : Client Msg)
      → get_elem? cs i ≡ some c
      → get_elem? (map f cs) i ≡ some (f c)
  get_elem?-map f [] i c at = ground arith
  get_elem?-map f (d ∷ cs) zero c at = ground arith
  get_elem?-map f (d ∷ cs) (suc i) c at = get_elem?-map f cs i c at

  get_elem?-append :
      (cs ds : List (Client Msg)) (i : ℕ) (c : Client Msg)
      → get_elem? cs i ≡ some c
      → get_elem? (cs ++ ds) i ≡ some c
  get_elem?-append [] ds i c at = ground arith
  get_elem?-append (d ∷ cs) ds zero c at = at
  get_elem?-append (d ∷ cs) ds (suc i) c at = get_elem?-append cs ds i c at

  get_elem?-step :
      (cs : List (Client Msg)) (e : Event Msg) (i : ℕ) (c : Client Msg)
      → get_elem? cs i ≡ some c
      → get_elem? (step cs e) i ≡ some (on_client i e c)
  unfolding step broadcast
  get_elem?-step cs registers i c at = get_elem?-append cs _ i c at
  get_elem?-step cs (greets j msgs ok) i c at = get_elem?-change i j (greet msgs ok) cs c at
  get_elem?-step cs (broadcasts msg) i c at = get_elem?-map (offer msg) cs i c at
  get_elem?-step cs (receives j ok) i c at = get_elem?-change i j (receive ok) cs c at
  get_elem?-step cs (cancels j) i c at = get_elem?-change i j cancel cs c at

  -- The hub is its connections side by side: each goes through the events as if it were alone.
  pub get_elem?-run :
      (cs : List (Client Msg)) (es : List (Event Msg)) (i : ℕ) (c : Client Msg)
      → get_elem? cs i ≡ some c
      → get_elem? (run cs es) i ≡ some (run_client i es c)
  unfolding run
  get_elem?-run cs [] i c at = at
  get_elem?-run cs (e ∷ es) i c at =
      get_elem?-run (step cs e) es i (on_client i e c) (get_elem?-step cs e i c at)
