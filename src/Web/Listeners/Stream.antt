-- ===== src/Web/Listeners/Stream.antt =====
-- What one websocket is told, whatever the others do.
use gunk.Base.{
  ℕ, ◌≡◌, ◌∙◌, refl, sym, ap, subst, ◌⊎◌, Bool, true, false, some, List, [], ◌∷◌, ◌++◌,
  append_assoc, append-nil, arith, length, get_elem?, if◌then◌else◌, ◌==◌, Bool-cases, inl, inr,
}
use gunk.Web.Listeners.{
  Client, Event, registers, greets, broadcasts, receives, cancels, greeting, new_client, offer,
  greet, receive, cancel, step, run,
}
use gunk.Web.Listeners.Alone.{on_client, run_client, get_elem?-run}
use gunk.Web.Listeners.Told.{
  is_greeting, IsTold, offer-IsTold, receive-IsTold, cancel-IsTold, greet-IsTold,
}

module _ {ℓ} {Msg : Type ℓ} where
  -- The messages that are broadcast.
  abbrev pub news : List (Event Msg) → List Msg
  news [] = []
  news (broadcasts msg ∷ es) = msg ∷ news es
  news (registers ∷ es) = news es
  news (greets _ _ _ ∷ es) = news es
  news (receives _ _ ∷ es) = news es
  news (cancels _ ∷ es) = news es

  -- The messages that a connection's OnNew writes.
  abbrev pub greeting_of : ℕ → List (Event Msg) → List Msg
  greeting_of i [] = []
  greeting_of i (greets j msgs ok ∷ es) = if j == i then msgs else greeting_of i es
  greeting_of i (broadcasts _ ∷ es) = greeting_of i es
  greeting_of i (registers ∷ es) = greeting_of i es
  greeting_of i (receives _ _ ∷ es) = greeting_of i es
  greeting_of i (cancels _ ∷ es) = greeting_of i es

  IsTold-if :
      (b : Bool) (said : List Msg) (x y : Client Msg)
      → IsTold said x
      → IsTold said y
      → IsTold said (if b then x else y)
  IsTold-if true said x y v w = v
  IsTold-if false said x y v w = w

  nothing_new : (said : List Msg) (c : Client Msg) → IsTold said c → IsTold (said ++ []) c
  nothing_new said c v = subst (λ l. IsTold l c) (sym (append-nil said)) v

  abbrev greets_for : ℕ → Event Msg → Bool
  greets_for i (greets j _ _) = j == i
  greets_for i _ = false

  news-cons : (e : Event Msg) (es : List (Event Msg)) → news (e ∷ []) ++ news es ≡ news (e ∷ es)
  news-cons registers es = refl
  news-cons (greets _ _ _) es = refl
  news-cons (broadcasts _) es = refl
  news-cons (receives _ _) es = refl
  news-cons (cancels _) es = refl

  -- Any event but a greeting that comes while there is none yet.
  on_client-IsTold :
      (i : ℕ) (e : Event Msg) (said : List Msg) (c : Client Msg)
      → (is_greeting c.phase ≡ false) ⊎ (greets_for i e ≡ false)
      → IsTold said c
      → IsTold (said ++ news (e ∷ [])) (on_client i e c)
  unfolding greet
  on_client-IsTold i registers said c h v = nothing_new said c v
  on_client-IsTold i (broadcasts msg) said c h v = offer-IsTold said msg c v
  on_client-IsTold i (receives j ok) said c h v = nothing_new said _ (
      IsTold-if (j == i) said (receive ok c) c
        (receive-IsTold said ok c v c.phase refl c.waiting refl) v)
  on_client-IsTold i (cancels j) said c h v =
      nothing_new said _ (IsTold-if (j == i) said (cancel c) c (cancel-IsTold said c v) v)
  on_client-IsTold i (greets j msgs ok) said c h v =
      nothing_new said _ (subst (IsTold said) (ground (arith, h)) v)

  started :
      (i : ℕ) (e : Event Msg) (c : Client Msg)
      → is_greeting c.phase ≡ false
      → is_greeting (on_client i e c).phase ≡ false
  unfolding greet offer receive cancel
  started i e c h = ground arith

  run_client-IsTold :
      (i : ℕ) (es : List (Event Msg)) (said : List Msg) (c : Client Msg)
      → is_greeting c.phase ≡ false
      → IsTold said c
      → IsTold (said ++ news es) (run_client i es c)
  run_client-IsTold i [] said c h v = nothing_new said c v
  run_client-IsTold i (e ∷ es) said c h v =
      let next =
        run_client-IsTold i es (said ++ news (e ∷ [])) (on_client i e c) (started i e c h)
          (on_client-IsTold i e said c (inl h) v) in
      subst (λ l. IsTold l (run_client i es (on_client i e c)))
        (append_assoc said (news (e ∷ [])) (news es) ∙ ap (λ l. said ++ l) (news-cons e es)) next

  IsTold-greeted :
      (i j : ℕ) (msgs : List Msg) (ok : Bool) (es : List (Event Msg)) (said : List Msg)
      (c : Client Msg)
      → c.phase ≡ greeting
      → c.written ≡ []
      → j ≡ i
      → IsTold said c
      → IsTold (msgs ++ (said ++ news es)) (run_client i es (greet msgs ok c))
  unfolding greet
  IsTold-greeted i j msgs ok es said c at empty same v =
      subst (λ l. IsTold l (run_client i es (greet msgs ok c))) (append_assoc msgs said (news es))
        (run_client-IsTold i es (msgs ++ said) (greet msgs ok c) (ground (arith, at))
          (greet-IsTold said msgs ok c at empty v))

  on_client-greeting :
      (i : ℕ) (e : Event Msg) (c : Client Msg)
      → greets_for i e ≡ false
      → c.phase ≡ greeting
      → c.written ≡ []
      → ((on_client i e c).phase ≡ greeting) × ((on_client i e c).written ≡ [])
  unfolding greet offer receive cancel
  on_client-greeting i e c h at empty = ground arith

  IsTold-mine :
      (i : ℕ) (e : Event Msg) (es : List (Event Msg)) (said : List Msg) (c : Client Msg)
      → greets_for i e ≡ true
      → c.phase ≡ greeting
      → c.written ≡ []
      → IsTold said c
      → IsTold (greeting_of i (e ∷ es) ++ (said ++ news (e ∷ es))) (run_client i (e ∷ es) c)
  IsTold-mine i (greets j msgs ok) es said c mine at empty v =
      rw mine (IsTold-greeted i j msgs ok es said c at empty (ground arith) v)
  IsTold-mine i registers es said c mine at empty v = absurd (ground arith)
  IsTold-mine i (broadcasts _) es said c mine at empty v = absurd (ground arith)
  IsTold-mine i (receives _ _) es said c mine at empty v = absurd (ground arith)
  IsTold-mine i (cancels _) es said c mine at empty v = absurd (ground arith)

  greeting_of-cons :
      (i : ℕ) (e : Event Msg) (es : List (Event Msg))
      → greets_for i e ≡ false
      → greeting_of i (e ∷ es) ≡ greeting_of i es
  greeting_of-cons i e es h = ground arith

  IsTold-from :
      (i : ℕ) (es : List (Event Msg)) (said : List Msg) (c : Client Msg)
      → c.phase ≡ greeting
      → c.written ≡ []
      → IsTold said c
      → IsTold (greeting_of i es ++ (said ++ news es)) (run_client i es c)
  IsTold-from i [] said c at empty v = nothing_new said c v
  IsTold-from i (e ∷ es) said c at empty v = elim (Bool-cases (greets_for i e)) [
    | inl mine ↦ IsTold-mine i e es said c mine at empty v
    | inr not_mine ↦
        let (at', empty') = on_client-greeting i e c not_mine at empty in
        let next =
          IsTold-from i es (said ++ news (e ∷ [])) (on_client i e c) at' empty'
            (on_client-IsTold i e said c (inr not_mine) v) in
        let same =
          append_assoc said (news (e ∷ [])) (news es) ∙ ap (λ l. said ++ l) (news-cons e es) in
        rw (greeting_of-cons i e es not_mine) (
          subst (λ l. IsTold (greeting_of i es ++ l) (run_client i es (on_client i e c))) same next)
  ]

  new-IsTold : IsTold {Msg = Msg} [] new_client
  new-IsTold = record {
    ahead = [];
    in_order = refl;
    missed = [];
    queued = λ _. refl;
    complete = λ _. refl;
    told = ground arith;
    safe = λ _. refl;
    bounded = omega arith;
  }

  get_elem?-last :
      (cs : List (Client Msg)) (c : Client Msg) → get_elem? (cs ++ c ∷ []) (length cs) ≡ some c
  get_elem?-last [] c = refl
  get_elem?-last (d ∷ cs) c = get_elem?-last cs c

  -- Whatever happens to a hub from the moment at which a connection registers, in any order and on
  -- any connections, that connection is told of its greeting and then of every broadcast since it
  -- registered: in order, without a gap, and up to the last one while it is registered. It is
  -- unregistered behind its back only by closing its Go channel, which is open while it is
  -- registered and never holds more than 10 messages.
  pub stream_exact :
      (cs : List (Client Msg)) (es : List (Event Msg))
      → let i = length cs in
        (c : Client Msg) × (get_elem? (run cs (registers ∷ es)) i ≡ some c)
        × IsTold (greeting_of i es ++ news es) c
  unfolding run step
  stream_exact cs es =
      let i = length cs in
      (
        run_client i es new_client,
        get_elem?-run (cs ++ new_client ∷ []) es i new_client (get_elem?-last cs new_client),
        IsTold-from i es [] new_client refl refl new-IsTold,
      )
