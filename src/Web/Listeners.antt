-- ===== src/Web/Listeners.antt =====
-- web/ws.go: the websockets that are told of every change of a channel. A connection stands in the
-- list of all that ever were, in the order in which they registered. Its place in the map of
-- listeners is the field `registered`, and the Go channel that it is known by is `waiting` and
-- `closed`. Broadcast ranges over the map in no particular order, and each round looks at one
-- listener alone, so here it is a map over the list. Each event is one critical section of the
-- mutex or one operation of a Go channel, with the write that follows a receive.
pub mod Alone
pub mod Told
pub mod Stream
use gunk.Base.{
  ℕ, zero, suc, ◌≡◌, Bool, true, false, List, [], ◌∷◌, ◌++◌, map, ltb, length, if◌then◌else◌,
}

-- How sendLoop returns: nil, io.EOF, the error of OnNew or that of a write.
pub data Outcome : Type 0 where
  cancelled : Outcome
  dropped : Outcome
  greeting_failed : Outcome
  write_failed : Outcome

-- Where sendLoop stands: in OnNew, in its loop, or behind its return.
pub data Phase : Type 0 where
  greeting : Phase
  sending : Phase
  ended : Outcome → Phase

-- The capacity of the Go channel that sendLoop makes.
abbrev pub capacity : ℕ
capacity = 10

module _ {ℓ} (Msg : Type ℓ) where
  pub record Client : Type ℓ where
    pub phase : Phase
    pub registered : Bool
    pub closed : Bool
    pub waiting : List Msg
    pub written : List Msg

  -- What may happen to the hub, in any order. An event of a connection names it by its place.
  pub data Event : Type ℓ where
    registers : Event
    greets : ℕ → List Msg → Bool → Event
    broadcasts : Msg → Event
    receives : ℕ → Bool → Event
    cancels : ℕ → Event

module _ {ℓ} {Msg : Type ℓ} where
  -- The start of sendLoop, up to the deferred function.
  abbrev pub new_client : Client Msg
  new_client = record {
    phase = greeting;
    registered = true;
    closed = false;
    waiting = [];
    written = [];
  }

  -- A round of Broadcast: the message is queued, or the listener dropped on overflow.
  unfoldable pub offer : Msg → Client Msg → Client Msg
  offer msg c =
      if c.registered
      then (if ltb (length c.waiting) capacity
          then record c { waiting = c.waiting ++ msg ∷ [] }
          else record c { registered = false; closed = true })
      else c

  unfoldable pub broadcast : Msg → List (Client Msg) → List (Client Msg)
  unfolding offer
  broadcast msg = map (offer msg)

  -- sendLoop returns: its deferred function deletes the listener.
  abbrev pub finish : Outcome → Client Msg → Client Msg
  finish o c = record c { phase = ended o; registered = false }

  -- OnNew has written some messages, and returned nil or an error.
  unfoldable pub greet : List Msg → Bool → Client Msg → Client Msg
  greet msgs ok c = elim c.phase [
    | greeting ↦
        let told = record c { written = c.written ++ msgs } in
        if ok then record told { phase = sending } else finish greeting_failed told
    | sending ↦ c
    | ended o ↦ c
  ]

  -- A receive from the Go channel: a message that is written, the end of a closed channel, or
  -- nothing yet.
  abbrev pub received : Bool → List Msg → Client Msg → Client Msg
  received ok (msg ∷ rest) c =
      let taken = record c { waiting = rest } in
      if ok then record taken { written = c.written ++ msg ∷ [] } else finish write_failed taken
  received ok [] c = if c.closed then finish dropped c else c

  unfoldable pub receive : Bool → Client Msg → Client Msg
  receive ok c = elim c.phase [ greeting ↦ c | sending ↦ received ok c.waiting c | ended o ↦ c ]

  -- The context ends while sendLoop waits in its loop.
  unfoldable pub cancel : Client Msg → Client Msg
  cancel c = elim c.phase [ greeting ↦ c | sending ↦ finish cancelled c | ended o ↦ c ]

  -- A change of one connection; out of range there is none.
  abbrev pub change : ℕ → (Client Msg → Client Msg) → List (Client Msg) → List (Client Msg)
  change i f [] = []
  change zero f (c ∷ cs) = f c ∷ cs
  change (suc i) f (c ∷ cs) = c ∷ change i f cs

  unfoldable pub step : List (Client Msg) → Event Msg → List (Client Msg)
  step cs registers = cs ++ new_client ∷ []
  step cs (greets i msgs ok) = change i (greet msgs ok) cs
  step cs (broadcasts msg) = broadcast msg cs
  step cs (receives i ok) = change i (receive ok) cs
  step cs (cancels i) = change i cancel cs

  unfoldable pub run : List (Client Msg) → List (Event Msg) → List (Client Msg)
  run cs [] = cs
  run cs (e ∷ es) = run (step cs e) es
