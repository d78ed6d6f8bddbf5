-- ===== src/Relay/Progress.antt =====
-- Every event that waits is relayed in the end, while nothing fails.
use mathlib.Core.List.{Memᴰ, append-nil, append_assoc}
use mathlib.Core.List.Memᴰ
use geo_notifications_servic.Prelude.{
  ℕ, zero, suc, ◌+◌, ◌-◌, ◌*◌, ◌≤◌, ◌<◌, ◌≡◌, refl, sym, ap, ◌∙◌, ◌++◌, map, subst, inl, inr, true,
  false, List, [], ◌∷◌, length, select, elem, arith, Bool-cases,
}
use geo_notifications_servic.World.{World, Env, OutboxRow, Item}
use geo_notifications_servic.Outbox.{is_due, claim_row, dispatch_row, returning}
use geo_notifications_servic.Outbox.Laws.{content}
use geo_notifications_servic.Relay.{to_item, batch_size, process, run, Signal, tick}
use geo_notifications_servic.Relay.Rounds.{
  calm, ids, claim_time, mark_time, claimed_rows, process-closed, process-calls,
}
use geo_notifications_servic.Relay.Claims.{
  select-Memᴰ, update_rows-Memᴰ, returning-Memᴰ, waits, unlocked, fewer-waits,
}

abbrev pub ticks : ℕ → List Signal
ticks zero = []
ticks (suc k) = tick ∷ ticks k

-- The environment in which no call fails and no other transaction holds a row.
abbrev pub quiet : Env → Env
quiet env = calm (record env { locked = λ n id. false })

le_self : (a : ℕ) → a ≤ a
le_self a = omega arith

le_trans : {a b c : ℕ} → a ≤ b → b ≤ c → a ≤ c
le_trans h k = omega arith

add_back : (m n : ℕ) → m ≤ n → (n - m) + m ≡ n
add_back m n h = omega arith

Memᴰ-positive {ℓ} : {A : Type ℓ} (x : A) (xs : List A) → Memᴰ x xs → 0 < length xs
Memᴰ-positive x [] h = absurd (Memᴰ.not-nil h)
Memᴰ-positive x (y ∷ ys) h = omega arith

due-waits_too : (now : ℕ) (r : OutboxRow) → is_due unlocked now r ≡ true → waits r ≡ true
unfolding is_due
due-waits_too now r h = ground arith

dispatched-settles : (t now : ℕ) (r : OutboxRow) → waits (dispatch_row t (claim_row now r)) ≡ false
unfolding dispatch_row
dispatched-settles t now r = refl

due-later :
    (t now : ℕ) (r : OutboxRow)
    → t ≤ now
    → is_due unlocked t r ≡ true
    → is_due unlocked now r ≡ true
unfolding is_due
due-later t now r later h = ground arith

-- The stream of the second world is that of the first and more, with the item in it.
abbrev pub Extended : World → World → Item → Type 0
Extended w v it = (more : List Item) × (v.stream ≡ w.stream ++ more) × Memᴰ it more

module _ (env : Env) where
  clock_steady :
      (steady : (n : ℕ) → env.clock n ≤ env.clock (suc n)) (d m : ℕ)
      → env.clock m ≤ env.clock (d + m)
  clock_steady steady zero m =
      let same : 0 + m ≡ m = omega arith in
      subst (λ x. env.clock m ≤ env.clock x) (sym same) (le_self (env.clock m))
  clock_steady steady (suc d) m =
      let same : suc d + m ≡ suc (d + m) = omega arith in
      subst (λ x. env.clock m ≤ env.clock x) (sym same)
        (le_trans (clock_steady steady d m) (steady (d + m)))

  pub clock_mono :
      (steady : (n : ℕ) → env.clock n ≤ env.clock (suc n)) (m n : ℕ)
      → m ≤ n
      → env.clock m ≤ env.clock n
  clock_mono steady m n h =
      subst (λ x. env.clock m ≤ env.clock x) (add_back m n h) (clock_steady steady (n - m) m)

  abbrev alone : Env
  alone = record env { locked = λ n id. false }

  abbrev added : World → List Item
  added w = map to_item (returning (ids alone w) (claimed_rows alone w))

  -- What follows on a round comes after what the round adds.
  after_round :
      (w v : World) (more : List Item)
      → v.stream ≡ (process (quiet env) w).1.stream ++ more
      → v.stream ≡ w.stream ++ (added w ++ more)
  after_round w v more later =
      let (_, stream, _) = process-closed alone w in
      later ∙ ap (λ l. l ++ more) stream ∙ append_assoc w.stream (added w) more

  run-extends :
      (k : ℕ) (w : World)
      → (more : List Item) × ((run (quiet env) (ticks k) w).1.stream ≡ w.stream ++ more)
  unfolding run
  run-extends zero w = ([], sym (append-nil w.stream))
  run-extends (suc k) w =
      let (more, later) = run-extends k (process (quiet env) w).1 in
      (added w ++ more, after_round w (run (quiet env) (ticks (suc k)) w).1 more later)

  claimed-Extended :
      (k : ℕ) (w : World) (it : Item)
      → Memᴰ it (added w)
      → Extended w (run (quiet env) (ticks k) (process (quiet env) w).1).1 it
  claimed-Extended k w it here =
      let v = (process (quiet env) w).1 in
      let (more, later) = run-extends k v in
      (
        added w ++ more,
        after_round w (run (quiet env) (ticks k) v).1 more later,
        Memᴰ.append_left more here,
      )

  missed-Extended :
      (w v : World) (it : Item) → Extended (process (quiet env) w).1 v it → Extended w v it
  missed-Extended w v it (more, later, here) =
      (added w ++ more, after_round w v more later, Memᴰ.append_right (added w) here)

  -- If the clock does not go back, no call fails and no other transaction holds a row: an event that
  -- waits for the relay, and is due, is among what the relay adds to the stream in as many rounds as
  -- there are hundreds of events that wait, whatever their order.
  pub run-relays :
      (steady : (n : ℕ) → env.clock n ≤ env.clock (suc n)) (k : ℕ) (w : World) (r : OutboxRow)
      → Memᴰ r w.tables.outbox
      → is_due unlocked (env.clock w.calls) r ≡ true
      → length (select waits w.tables.outbox) ≤ batch_size * k
      → Extended w (run (quiet env) (ticks k) w).1 (content r)
  unfolding run
  run-relays steady zero w r here due few =
      let positive =
        Memᴰ-positive r _
          (select-Memᴰ waits r w.tables.outbox here (due-waits_too (env.clock w.calls) r due)) in
      absurd (omega (arith, positive))
  run-relays steady (suc k) w r here due few =
      let (_, _, outbox) = process-closed alone w in
      let v = (process (quiet env) w).1 in
      elim (Bool-cases (elem r.id (ids alone w))) [
        | inl claimed ↦
            claimed-Extended k w (content r)
              (returning-Memᴰ (env.clock w.calls) (ids alone w) r w.tables.outbox here claimed)
        | inr missed ↦ missed-Extended w (run (quiet env) (ticks k) v).1 (content r) (
            run-relays steady k v r
              (subst (λ rows. Memᴰ r rows) (sym outbox)
                (update_rows-Memᴰ _ (ids alone w) r w.tables.outbox here missed))
              (due-later (env.clock w.calls) (env.clock v.calls) r
                (clock_mono steady w.calls v.calls (process-calls alone w)) due)
              (subst (λ rows. length (select waits rows) ≤ batch_size * k) (sym outbox)
                (fewer-waits (env.clock w.calls) w.tables.outbox _
                  (dispatched-settles (mark_time alone w) (claim_time alone w)) r k here due missed
                  few)))
      ]
