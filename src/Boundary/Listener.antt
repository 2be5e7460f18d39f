-- ===== src/Boundary/Listener.antt =====
-- serveListener of sdk/cmd/connect-proxy/main.go: the budget of connections.
pub mod Budget
use agents_net.Base.{
  ℕ, ◌+◌, ◌-◌, ◌≡◌, Bool, true, false, Option, none, some, List, [], ◌∷◌, ◌++◌, ltb, ◌==◌,
  if◌then◌else◌,
}
use agents_net.Policy.{Policy}
use agents_net.Policy.Authorize.{busy}
use agents_net.Boundary.{World, Wire, h1, h2, Event, audit, denied}
use agents_net.Boundary.Heads.{failed_connection}

abbrev pub wire_of : Bool → Wire
wire_of true = h2
wire_of false = h1

-- How many elements the channel of slots holds, and can hold.
pub record Slots : Type 0 where
  pub used : ℕ
  pub capacity : ℕ

-- One round of the loop: what is written, and whether a handler was started. A connection over the
-- budget is closed, and with TLS it gets no response.
unfoldable pub accept : World → Option Policy → Bool → Bool → Slots → Slots × List Event × Bool
accept w current use_h2 is_tls s =
    if ltb s.used s.capacity then (record s { used = s.used + 1 }, [], true) else (
      s,
      audit w current (failed_connection (wire_of use_h2) busy)
          ∷ (if is_tls then [] else denied 503 busy ∷ []),
      false,
    )

-- The deferred receive of a handler, which blocks on an empty channel.
unfoldable pub leave : Slots → Option Slots
leave s = if s.used == 0 then none else some (record s { used = s.used - 1 })

-- The slots and the identities of the connections whose handlers run.
pub record Listening : Type 0 where
  pub slots : Slots
  pub handlers : List ℕ

-- The steps of a listener: a connection comes in, or a handler ends.
pub data Step (w : World) (current : Option Policy) (use_h2 : Bool) (l : Listening)
    : Listening → Type 0 where
  accepted :
      (id : ℕ) (is_tls : Bool) (s : Slots)
      → accept w current use_h2 is_tls l.slots ≡ (s, [], true)
      → Step w current use_h2 l (record { slots = s; handlers = id ∷ l.handlers })
  turned_away :
      (is_tls : Bool) (s : Slots) (events : List Event)
      → accept w current use_h2 is_tls l.slots ≡ (s, events, false)
      → Step w current use_h2 l (record l { slots = s })
  ended :
      (before after : List ℕ) (id : ℕ) (s : Slots)
      → l.handlers ≡ before ++ id ∷ after
      → leave l.slots ≡ some s
      → Step w current use_h2 l (record { slots = s; handlers = before ++ after })

pub data Reach (w : World) (current : Option Policy) (use_h2 : Bool) (l : Listening)
    : Listening → Type 0 where
  here : Reach w current use_h2 l l
  later :
      {m n : Listening}
      → Reach w current use_h2 l m
      → Step w current use_h2 m n
      → Reach w current use_h2 l n

abbrev pub new_listener : ℕ → Listening
new_listener capacity = record { slots = record { used = 0; capacity = capacity }; handlers = [] }
