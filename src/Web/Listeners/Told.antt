-- ===== src/Web/Listeners/Told.antt =====
-- What one connection is told, step by step.
use gunk.Base.{
  ◌≤◌, ◌≡◌, ◌∙◌, refl, sym, ap, Bool, true, false, List, [], ◌∷◌, ◌++◌, append_assoc, append-nil,
  arith, ltb, length, length-append, ◌&&◌, Bool-cases, inl, inr,
}
use gunk.Web.Listeners.{
  Client, Phase, greeting, sending, ended, capacity, offer, greet, receive, cancel,
}

abbrev pub has_ended : Phase → Bool
has_ended greeting = false
has_ended sending = false
has_ended (ended o) = true

abbrev pub is_greeting : Phase → Bool
is_greeting greeting = true
is_greeting _ = false

module _ {ℓ} {Msg : Type ℓ} where
  -- What a connection has been told of a stream: `said` is the stream up to now.
  pub record IsTold (said : List Msg) (c : Client Msg) : Type ℓ where
    -- It is told in order, from the first message on, and none is left out.
    pub ahead : List Msg
    pub in_order : said ≡ c.written ++ ahead
    -- While it goes on, nothing is lost between the queue and the connection.
    pub missed : List Msg
    pub queued : has_ended c.phase ≡ false → said ≡ (c.written ++ c.waiting) ++ missed
    -- Only a listener that was dropped has missed messages, and it learns of it.
    pub complete : c.registered ≡ true → missed ≡ []
    pub told : has_ended c.phase ≡ false → c.registered ≡ false → c.closed ≡ true
    -- A Go channel in the map is open, so that no send and no close panics.
    pub safe : c.registered ≡ true → c.closed ≡ false
    pub bounded : length c.waiting ≤ capacity

  -- One more message at the end of a stream that a connection has been told of.
  later :
      (said a b : List Msg) (msg : Msg) → said ≡ a ++ b → said ++ msg ∷ [] ≡ a ++ (b ++ msg ∷ [])
  later said a b msg e = ap (λ l. l ++ msg ∷ []) e ∙ append_assoc a b (msg ∷ [])

  moved :
      (said a b m : List Msg) (msg : Msg)
      → said ≡ (a ++ b) ++ m
      → m ≡ []
      → said ++ msg ∷ [] ≡ (a ++ (b ++ msg ∷ [])) ++ []
  moved said a b m msg e none_missed =
      ap (λ l. l ++ msg ∷ []) (e ∙ ap (λ l. (a ++ b) ++ l) none_missed)
      ∙ simp (append_assoc, append-nil)

  pub offer-IsTold :
      (said : List Msg) (msg : Msg) (c : Client Msg)
      → IsTold said c
      → IsTold (said ++ msg ∷ []) (offer msg c)
  unfolding offer
  offer-IsTold said msg c v =
      let on = later said c.written v.ahead msg v.in_order in
      let lost = λ (g : has_ended c.phase ≡ false).
        later said (c.written ++ c.waiting) v.missed msg (v.queued g) in
      elim (Bool-cases (c.registered && ltb (length c.waiting) capacity)) [
        | inl room ↦
            let kept = λ (g : has_ended c.phase ≡ false).
              moved said c.written c.waiting v.missed msg (v.queued g)
                (v.complete (ground arith)) in
            record {
              ahead = v.ahead ++ msg ∷ [];
              in_order = ground (arith, on);
              missed = [];
              queued = ground (arith, kept);
              complete = λ _. refl;
              told = ground arith;
              safe = ground arith;
              bounded = ground (arith, length-append c.waiting (msg ∷ []));
            }
        | inr over ↦ record {
          ahead = v.ahead ++ msg ∷ [];
          in_order = ground (arith, on);
          missed = v.missed ++ msg ∷ [];
          queued = ground (arith, lost);
          complete = ground arith;
          told = ground arith;
          safe = ground arith;
          bounded = ground (arith);
        }
      ]

  pub receive-IsTold :
      (said : List Msg) (ok : Bool) (c : Client Msg)
      → IsTold said c
      → (p : Phase) → c.phase ≡ p
      → (ms : List Msg) → c.waiting ≡ ms
      → IsTold said (receive ok c)
  unfolding receive
  receive-IsTold said ok c v greeting at ms held = ground (arith, v)
  receive-IsTold said ok c v (ended o) at ms held = ground (arith, v)
  receive-IsTold said ok c v sending at [] held = record {
    ahead = v.ahead;
    in_order = ground (arith, v.in_order);
    missed = v.missed;
    queued = ground (arith, v);
    complete = ground (arith, v);
    told = ground (arith, v);
    safe = ground (arith, v);
    bounded = ground (arith, v);
  }
  receive-IsTold said ok c v sending at (m ∷ ms) held =
      let e : said ≡ (c.written ++ m ∷ ms) ++ v.missed =
        v.queued (ground arith) ∙ ap (λ l. (c.written ++ l) ++ v.missed) held in
      let rest : said ≡ (c.written ++ m ∷ []) ++ (ms ++ v.missed) = e ∙ simp append_assoc in
      let still : said ≡ ((c.written ++ m ∷ []) ++ ms) ++ v.missed = e ∙ simp append_assoc in
      let all : said ≡ c.written ++ v.ahead = v.in_order in
      elim (Bool-cases ok) [
        | inl fine ↦ record {
          ahead = ms ++ v.missed;
          in_order = ground (arith, rest);
          missed = v.missed;
          queued = ground (arith, still);
          complete = ground (arith, v);
          told = ground (arith, v);
          safe = ground (arith, v);
          bounded = ground (arith, v);
        }
        | inr bad ↦ record {
          ahead = v.ahead;
          in_order = ground (arith, all);
          missed = v.missed;
          queued = ground arith;
          complete = ground (arith, v);
          told = ground arith;
          safe = ground (arith, v);
          bounded = ground (arith, v);
        }
      ]

  pub cancel-IsTold : (said : List Msg) (c : Client Msg) → IsTold said c → IsTold said (cancel c)
  unfolding cancel
  cancel-IsTold said c v = ground (arith, v)

  pub greet-IsTold :
      (said msgs : List Msg) (ok : Bool) (c : Client Msg)
      → c.phase ≡ greeting
      → c.written ≡ []
      → IsTold said c
      → IsTold (msgs ++ said) (greet msgs ok c)
  unfolding greet
  greet-IsTold said msgs ok c at empty v =
      let all : msgs ++ said ≡ (c.written ++ msgs) ++ v.ahead =
        ap (λ l. msgs ++ l) (v.in_order ∙ ap (λ l. l ++ v.ahead) empty)
        ∙ sym (ap (λ l. (l ++ msgs) ++ v.ahead) empty) in
      let still : msgs ++ said ≡ ((c.written ++ msgs) ++ c.waiting) ++ v.missed =
        ap (λ l. msgs ++ l) (v.queued (ground arith) ∙ ap (λ l. (l ++ c.waiting) ++ v.missed) empty)
        ∙ sym (append_assoc msgs c.waiting v.missed)
        ∙ sym (ap (λ l. ((l ++ msgs) ++ c.waiting) ++ v.missed) empty) in
      record {
        ahead = v.ahead;
        in_order = ground (arith, all);
        missed = v.missed;
        queued = ground (arith, still);
        complete = ground (arith, v);
        told = ground (arith, v);
        safe = ground (arith, v);
        bounded = ground (arith, v);
      }
