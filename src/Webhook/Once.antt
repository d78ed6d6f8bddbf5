-- ===== src/Webhook/Once.antt =====
-- An event that stands in the stream several times is sent for one entry at most, within a day.
use geo_notifications_servic.Prelude.{
  ◌≡◌, ◌⊎◌, ℕ, ◌+◌, ◌<◌, true, false, List, [], ◌∷◌, ◌++◌, drop, pos, ℤ, elem,
}
use geo_notifications_servic.World.{World, Env, Item, Post}
use geo_notifications_servic.Webhook.{entry, on_message, copies, has_key, dedupe_ttl}

module _ (env : Env) (it : Item) (n : ℕ) (w : World) where
  abbrev after : World
  after = (on_message env n (entry it) w).1

  -- The keys after a message whose key was not set.
  abbrev keys : List (ℤ × ℕ)
  keys = (pos it.outbox_id, env.clock w.calls + dedupe_ttl) ∷ w.processed

-- The requests are, for some of the items and in their order, copies of one request for each, with
-- the item's payload; no two of these items have the same outbox id, and none has one of the ids that
-- are taken.
abbrev pub Once : List ℕ → List Post → List Item → Type 0
Once taken ps [] = ps ≡ []
Once taken ps (it ∷ items) =
    ((p : Post) × (n : ℕ) × (rest : List Post) × (ps ≡ copies n p ++ rest)
      × (p.body ≡ it.payload)
      × (elem it.outbox_id taken ≡ false)
      × Once (it.outbox_id ∷ taken) rest items)
    ⊎ Once taken ps items

module _ (env : Env) (day : (c d : ℕ) → env.clock d < env.clock c + dedupe_ttl) where
  -- A key that is set at every call.
  abbrev IsTaken : List (ℤ × ℕ) → ℕ → Type 0
  IsTaken set id = (c : ℕ) → has_key (pos id) (env.clock c) set ≡ true

  -- What is sent from a world on, of the entries from a number on.
  abbrev SendsOnce : List ℕ → ℕ → World → World → Type 0
  SendsOnce taken n w v =
      (ps : List Post) × (v.posts ≡ w.posts ++ ps) × Once taken ps (drop n w.stream)
