-- ===== src/Webhook/Progress.antt =====
-- Each entry of the stream is delivered, while nothing fails.
use geo_notifications_servic.Prelude.{
  ◌≡◌, refl, sym, ap, ◌∙◌, subst, ℕ, zero, suc, ◌+◌, ◌≤◌, ◌<◌, Bool, true, false, none, some, List,
  [], ◌∷◌, ◌++◌, map, length, drop, pos, arith, ◌==◌, All, ℤ, ◌==ℤ◌,
}
use mathlib.Core.List.{append-nil, append_assoc}
use geo_notifications_servic.Domain.{CheckCompleted}
use geo_notifications_servic.World.{World, Env, Item, Post}
use geo_notifications_servic.Relay.Rounds.{calm}
use geo_notifications_servic.Webhook.{
  entry, handle, carried_out, on_message, request, nth, read_next, handle_entry, iteration, loop,
  run, has_key, dedupe_ttl,
}

-- No key of these is that of the item.
abbrev pub IsNew : List (ℤ × ℕ) → Item → Type 0
IsNew keys it = All (λ k. (pos it.outbox_id ==ℤ k.0) ≡ false) keys

-- Items of which no two have the same id, and of which none has its key set.
abbrev pub AreNew : List (ℤ × ℕ) → List Item → Type 0
AreNew keys [] = Unit
AreNew keys (it ∷ items) =
    IsNew keys it × All (λ x. (x.outbox_id == it.outbox_id) ≡ false) items × AreNew keys items

has_key-IsNew :
    (keys : List (ℤ × ℕ)) (it : Item) (now : ℕ)
    → IsNew keys it
    → has_key (pos it.outbox_id) now keys ≡ false
unfolding has_key
has_key-IsNew [] it now h = refl
has_key-IsNew ((k, expires) ∷ keys) it now (other, h) =
    let rest = has_key-IsNew keys it now h in ground arith

AreNew-cons :
    (keys : List (ℤ × ℕ)) (id expires : ℕ) (items : List Item)
    → All (λ x. (x.outbox_id == id) ≡ false) items
    → AreNew keys items
    → AreNew ((pos id, expires) ∷ keys) items
AreNew-cons keys id expires [] h k = tt
AreNew-cons keys id expires (it ∷ items) (other, h) (new, apart, k) =
    ((ground arith, new), apart, AreNew-cons keys id expires items h k)

abbrev pub turns : ℕ → List Bool
turns zero = []
turns (suc k) = false ∷ turns k

abbrev pub numbered : ℕ → List Item → List ℕ
numbered n [] = []
numbered n (it ∷ items) = n ∷ numbered (suc n) items

nth-none : (n : ℕ) (items : List Item) → drop n items ≡ [] → nth n items ≡ none
nth-none n [] h = refl
nth-none zero (x ∷ items) h = absurd (cc)
nth-none (suc n) (x ∷ items) h = nth-none n items h

nth-some :
    (n : ℕ) (items : List Item) (it : Item) (rest : List Item)
    → drop n items ≡ it ∷ rest
    → (nth n items ≡ some it) × (drop (suc n) items ≡ rest)
nth-some zero [] it rest h = absurd (cc)
nth-some (suc n) [] it rest h = absurd (cc)
nth-some zero (x ∷ items) it rest h = (cc, cc)
nth-some (suc n) (x ∷ items) it rest h = nth-some n items it rest h

module _ (env : Env) (accepts : (n : ℕ) → (200 ≤ env.http_status n) × (env.http_status n < 300))
    (valid : env.is_valid_target ≡ true) where
  -- The handling of one entry.
  delivered :
      (it : Item) (n : ℕ) (w : World) (ev : CheckCompleted)
      → env.unmarshal_event it.payload ≡ some ev
      → has_key (pos it.outbox_id) (env.clock w.calls) w.processed ≡ false
      → let v = (on_message (calm env) n (entry it) w).1 in
        (v.posts ≡ w.posts ++ request it.payload ev ∷ [])
        × (v.acked ≡ w.acked ++ n ∷ [])
        × (v.stream ≡ w.stream)
        × (v.processed ≡ (pos it.outbox_id, env.clock w.calls + dedupe_ttl) ∷ w.processed)
  unfolding on_message handle carried_out
  delivered it n w ev read fresh = let (low, high) = accepts (suc w.calls) in ground arith

  iteration-none :
      (n : ℕ) (w : World)
      → nth n w.stream ≡ none
      → iteration (calm env) n w ≡ (record w { calls = suc w.calls }, n)
  unfolding iteration read_next handle_entry
  iteration-none n w h = rw h refl

  iteration-some :
      (n : ℕ) (w : World) (it : Item)
      → nth n w.stream ≡ some it
      → iteration (calm env) n w
        ≡ ((on_message (calm env) n (entry it) (record w { calls = suc w.calls })).1, suc n)
  unfolding iteration read_next handle_entry
  iteration-some n w it h = rw h refl

  module _ (event_of : Item → CheckCompleted) where
    abbrev pub IsRead : Item → Type 0
    IsRead it = env.unmarshal_event it.payload ≡ some (event_of it)

    abbrev pub requests : List Item → List Post
    requests = map (λ it. request it.payload (event_of it))

    loop-none :
        (k n : ℕ) (w : World)
        → drop n w.stream ≡ []
        → let v = (loop (calm env) (turns k) n w).1 in (v.posts ≡ w.posts) × (v.acked ≡ w.acked)
    unfolding loop
    loop-none zero n w h = (refl, refl)
    loop-none (suc k) n w h =
        subst
          (λ p.
            let v = (loop (calm env) (turns k) p.1 p.0).1 in
            (v.posts ≡ w.posts) × (v.acked ≡ w.acked))
          (sym (iteration-none n w (nth-none n w.stream h)))
          (loop-none k n (record w { calls = suc w.calls }) h)

    loop-delivers :
        (k n : ℕ) (w : World) (items : List Item)
        → drop n w.stream ≡ items
        → All IsRead items
        → AreNew w.processed items
        → length items ≤ k
        → let v = (loop (calm env) (turns k) n w).1 in
          (v.posts ≡ w.posts ++ requests items) × (v.acked ≡ w.acked ++ numbered n items)
    unfolding loop
    loop-delivers k n w [] here read new enough =
        let (posts, acked) = loop-none k n w here in
        (posts ∙ sym (append-nil w.posts), acked ∙ sym (append-nil w.acked))
    loop-delivers zero n w (it ∷ items) here read new enough = absurd (omega arith)
    loop-delivers (suc k) n w (it ∷ items) here (read, reads) (new, apart, news) enough =
        let (found, rest) = nth-some n w.stream it items here in
        let w' : World = record w { calls = suc w.calls } in
        let v = (on_message (calm env) n (entry it) w').1 in
        let (posts, acked, stream, keys) =
          delivered it n w' (event_of it) read
            (has_key-IsNew w.processed it (env.clock w'.calls) new) in
        let (posts', acked') =
          loop-delivers k (suc n) v items (ap (drop (suc n)) stream ∙ rest) reads
            (subst (λ ks. AreNew ks items) (sym keys)
              (AreNew-cons w.processed it.outbox_id (env.clock w'.calls + dedupe_ttl) items apart
                news))
            (omega arith) in
        subst
          (λ p.
            let v = (loop (calm env) (turns k) p.1 p.0).1 in
            (v.posts ≡ w.posts ++ requests (it ∷ items))
            × (v.acked ≡ w.acked ++ numbered n (it ∷ items)))
          (sym (iteration-some n w it found))
          (
            posts'
                ∙ ap (λ l. l ++ requests items) posts
                ∙ append_assoc w.posts (request it.payload (event_of it) ∷ []) (requests items),
            acked'
                ∙ ap (λ l. l ++ numbered (suc n) items) acked
                ∙ append_assoc w.acked (n ∷ []) (numbered (suc n) items),
          )

    -- If no call fails, the target's URL is accepted and the target answers each request with a
    -- status of 200 to 299: the worker, once it has gone round as often as there are entries that
    -- it has not read, has sent exactly one request for each of these, in the order of the stream,
    -- with the entry's payload and the check id of the event in it, and has acknowledged each;
    -- given that their payloads can be read as events, that no two of them have the same outbox id,
    -- and that none has its key set.
    pub run-delivers :
        (k n : ℕ) (w : World)
        → All IsRead (drop n w.stream)
        → AreNew w.processed (drop n w.stream)
        → length (drop n w.stream) ≤ k
        → let v = (run (calm env) (turns k) n w).1 in
          (v.posts ≡ w.posts ++ requests (drop n w.stream))
          × (v.acked ≡ w.acked ++ numbered n (drop n w.stream))
    unfolding run
    run-delivers k n w read new enough =
        loop-delivers k n (record w { calls = suc w.calls }) (drop n w.stream) refl read new enough
