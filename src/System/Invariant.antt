-- ===== src/System/Invariant.antt =====
-- What holds however the steps of the handlers, the relays and the worker interleave.
use geo_notifications_servic.Prelude.{
  ◌≡◌, sym, ◌∙◌, inl, inr, ℕ, true, none, some, List, [], ◌∷◌, ◌++◌, map, ◌==◌, elem,
  elem-append_left, All, All-append, All-imp, Bool-cases,
}
use geo_notifications_servic.World.{World, Item, OutboxRow, Tables, Post}
use geo_notifications_servic.Outbox.Laws.{content}
use geo_notifications_servic.Relay.{event_ids, to_item}
use geo_notifications_servic.Relay.Trace.{item_ids, IsTraced, IsTracedRow, Among, item_ids-append}
use geo_notifications_servic.System.{Phase, idle, claimed, pushed, State, put}
use geo_notifications_servic.System.Growth.{Grown}

abbrev pub contents : World → List Item
contents w = map content w.tables.outbox

-- A request to the webhook has the payload of one of these.
abbrev pub SentFrom : List Item → Post → Type 0
SentFrom items p = (it : Item) × Among it items × (it.payload ≡ p.body)

-- The events that a relay has claimed are rows of the outbox; once it has pushed them they are in
-- the stream.
abbrev pub Holds : List Item → List Item → Phase → Type 0
Holds stream items idle = Unit
Holds stream items (claimed events) = All (λ it. Among it items) (map to_item events)
Holds stream items (pushed events none) =
    (id : ℕ) → elem id (event_ids events) ≡ true → elem id (item_ids stream) ≡ true
Holds stream items (pushed events (some e)) = Unit

-- Every dispatched row of the outbox is in the stream; every item of the stream has the id, the type
-- and the payload of a row; every request that reached the webhook has the payload of a row; and so
-- have the events that the relays hold. No row that was there at some time, when the contents were
-- `kept`, is lost.
pub record IsSound (kept : List Item) (s : State) : Type 0 where
  pub lasting : (it : Item) → Among it kept → Among it (contents s.world)
  pub traced : IsTraced s.world.stream s.world.tables
  pub genuine : All (λ it. Among it (contents s.world)) s.world.stream
  pub sent : All (SentFrom (contents s.world)) s.world.posts
  pub held : (n : ℕ) → Holds s.world.stream (contents s.world) (s.relays n)

-- More rows, and more items in the stream.
pub record Extends (w v : World) : Type 0 where
  pub rows : (it : Item) → Among it (contents w) → Among it (contents v)
  pub ids : (id : ℕ) → elem id (item_ids w.stream) ≡ true → elem id (item_ids v.stream) ≡ true

pub Holds-imp :
    (w v : World)
    → Extends w v
    → (p : Phase) → Holds w.stream (contents w) p
    → Holds v.stream (contents v) p
Holds-imp w v more idle h = tt
Holds-imp w v more (claimed events) h = All-imp more.rows (map to_item events) h
Holds-imp w v more (pushed events none) h = λ id k. more.ids id (h id k)
Holds-imp w v more (pushed events (some e)) h = tt

pub SentFrom-imp :
    (w v : World)
    → Extends w v
    → (posts : List Post) → All (SentFrom (contents w)) posts
    → All (SentFrom (contents v)) posts
SentFrom-imp w v more posts h =
    All-imp (λ p (it, among, same). (it, more.rows it among, same)) posts h

-- If one relay goes on, the others hold what they did.
pub put-Holds :
    (w v : World) (relays : ℕ → Phase) (n : ℕ) (p : Phase)
    → Extends w v
    → ((m : ℕ) → Holds w.stream (contents w) (relays m))
    → Holds v.stream (contents v) p
    → (m : ℕ) → Holds v.stream (contents v) (put n p relays m)
put-Holds w v relays n p more h k m = elim (Bool-cases (m == n)) [
  | inl here ↦ rw here k
  | inr other ↦ rw other (Holds-imp w v more (relays m) (h m))
]

Among-grown :
    (it : Item) (rows more : List OutboxRow)
    → Among it (map content rows)
    → Among it (map content (rows ++ more))
Among-grown it [] more h = absurd h
Among-grown it (r ∷ rows) more (inl here) = inl here
Among-grown it (r ∷ rows) more (inr later) = inr (Among-grown it rows more later)

-- The world after steps that leave the stream, with a longer outbox.
pub Extends-Grown : (w v : World) → Grown w.tables v.tables → v.stream ≡ w.stream → Extends w v
Extends-Grown w v (rows, grown, waiting) same = record {
  rows = λ it among. rw grown (Among-grown it w.tables.outbox rows among);
  ids = λ id k. rw same k;
}

pub Extends-stream :
    (w v : World) (items : List Item)
    → contents v ≡ contents w
    → v.stream ≡ w.stream ++ items
    → Extends w v
Extends-stream w v items same added = record {
  rows = λ it among. rw same among;
  ids = λ id k.
      rw (added, item_ids-append w.stream items)
        (elem-append_left id (item_ids w.stream) (item_ids items) k);
}

pub Grown-IsTraced :
    (stream : List Item) (t u : Tables) → Grown t u → IsTraced stream t → IsTraced stream u
Grown-IsTraced stream t u (rows, grown, waiting) h = rw grown (
    All-append (IsTracedRow stream) t.outbox rows h
      (All-imp (λ r p d. absurd (let differ = sym p ∙ d in cc)) rows waiting))
