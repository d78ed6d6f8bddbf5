-- ===== src/Webhook/Loop.antt =====
-- What the loop of the worker sends.
use geo_notifications_servic.Prelude.{
  ◌≡◌, refl, sym, ap, ◌∙◌, ◌⊎◌, inl, inr, ℕ, zero, suc, Bool, true, false, Option, none, some, List,
  [], ◌∷◌, ◌++◌, drop, pos, arith, ◌==◌, Bool-cases, subst,
}
use mathlib.Core.List.{append-nil, append_assoc}
use geo_notifications_servic.World.{World, Env, Reply, fine, failed, Item, Post}
use geo_notifications_servic.Webhook.{
  entry, handle, on_message, request, copies, nth, read_next, handle_entry, iteration, loop, run,
}
use geo_notifications_servic.Webhook.Delivery.{handle-copies}

module _ (env : Env) (it : Item) (n : ℕ) (w : World) where
  handle-same : let v = (handle env (entry it) w).1 in (v.tables ≡ w.tables) × (v.stream ≡ w.stream)
  unfolding handle
  handle-same = ground arith

  acked-same :
      let v = (on_message env n (entry it) w).1 in
      let u = (handle env (entry it) w).1 in
      (v.tables ≡ u.tables) × (v.stream ≡ u.stream) × (v.posts ≡ u.posts)
  unfolding on_message
  acked-same = ground arith

  -- The handling of a message leaves the outbox and the stream, and sends copies of one request, with
  -- the message's body, or nothing.
  pub delivers :
      let v = (on_message env n (entry it) w).1 in
      (v.tables ≡ w.tables)
      × (v.stream ≡ w.stream)
      × ((v.posts ≡ w.posts)
          ⊎ ((p : Post) × (n : ℕ) × (p.body ≡ it.payload) × (v.posts ≡ w.posts ++ copies n p)))
  delivers =
      let (tables, stream) = handle-same in
      let (tables', stream', posts) = acked-same in
      (
        tables' ∙ tables,
        stream' ∙ stream,
        elim (handle-copies env it.payload (pos it.outbox_id) w) [
          | inl none_ ↦ inl (posts ∙ none_)
          | inr (fresh, (ev, n, read, made, sent)) ↦
              inr (request it.payload ev, n, refl, posts ∙ sent)
        ],
      )

-- The requests are, for some of the items and in their order, copies of one request for each, with
-- the item's payload.
abbrev pub InOrder : List Post → List Item → Type 0
InOrder ps [] = ps ≡ []
InOrder ps (it ∷ items) =
    ((p : Post) × (n : ℕ) × (rest : List Post) × (ps ≡ copies n p ++ rest)
      × (p.body ≡ it.payload)
      × InOrder rest items)
    ⊎ InOrder ps items

InOrder-none : (items : List Item) → InOrder [] items
InOrder-none [] = refl
InOrder-none (it ∷ items) = inr (InOrder-none items)

pub drop-nth :
    (n : ℕ) (items : List Item) (it : Item)
    → nth n items ≡ some it
    → drop n items ≡ it ∷ drop (suc n) items
drop-nth n [] it h = absurd (cc)
drop-nth zero (x ∷ items) it h = let same : x ≡ it = cc in rw same refl
drop-nth (suc n) (x ∷ items) it h = drop-nth n items it h

-- What is sent from a world on, of the entries from a number on.
abbrev Sends : ℕ → World → World → Type 0
Sends n w v = (ps : List Post) × (v.posts ≡ w.posts ++ ps) × InOrder ps (drop n w.stream)

Sends-none : (n : ℕ) (w : World) → Sends n w w
Sends-none n w = ([], sym (append-nil w.posts), InOrder-none (drop n w.stream))

module _ (env : Env) where
  -- One iteration, and what follows on it.
  iterated :
      (r : Reply) (x : Option Item) (n : ℕ) (w v : World)
      → nth n w.stream ≡ x
      → let (next, n') = read_next r x n in
        let w' = handle_entry env n next (record w { calls = suc w.calls }) in
        Sends n' w' v → Sends n w v
  unfolding read_next handle_entry
  iterated fine none n w v found h = h
  iterated (failed k e) none n w v found h = h
  iterated (failed k e) (some it) n w v found h = elim (Bool-cases (k == 0)) [
    | inl unread ↦ (rw unread at h)
    | inr lost ↦
        let (ps, posts, order) = (rw lost at h) in
        (ps, posts, rw (drop-nth n w.stream it found) (inr order))
  ]
  iterated fine (some it) n w v found h =
      let (ps, posts, order) = h in
      let (_, stream, sent) = delivers env it n (record w { calls = suc w.calls }) in
      let here = drop-nth n w.stream it found in
      let order' : InOrder ps (drop (suc n) w.stream) =
        subst (λ s. InOrder ps (drop (suc n) s)) stream order in
      elim sent [
        | inl none_ ↦ (ps, posts ∙ ap (λ l. l ++ ps) none_, rw here (inr order'))
        | inr (p, k, body, sent) ↦ (
          copies k p ++ ps,
          posts ∙ ap (λ l. l ++ ps) sent ∙ append_assoc w.posts (copies k p) ps,
          rw here (inl (p, k, ps, refl, body, order')),
        )
      ]

  loop-Sends : (done : List Bool) (n : ℕ) (w : World) → Sends n w (loop env done n w).1
  unfolding loop iteration
  loop-Sends [] n w = Sends-none n w
  loop-Sends (true ∷ done) n w = Sends-none n w
  loop-Sends (false ∷ done) n w =
      let (w', n') = iteration env n w in
      iterated (env.reply w.calls) (nth n w.stream) n w (loop env done n' w').1 refl
        (loop-Sends done n' w')

  -- However often the worker's loop goes round, on a stream to which nothing is added meanwhile, and
  -- whichever of its calls fail or are made again by the clients of Redis and HTTP: the requests that
  -- reach the webhook are, for some of the entries that had not been read and in the order of the
  -- stream, copies of one request for each, with the entry's payload; once a later entry has been
  -- sent, no earlier one is.
  pub run-InOrder :
      (done : List Bool) (n : ℕ) (w : World)
      → (ps : List Post) × ((run env done n w).1.posts ≡ w.posts ++ ps)
        × InOrder ps (drop n w.stream)
  unfolding run
  run-InOrder done n w = loop-Sends done n (record w { calls = suc w.calls })
