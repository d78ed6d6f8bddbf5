-- ===== src/System/Soundness.antt =====
-- Every step of a relay keeps the invariant, whichever of its calls fail.
use geo_notifications_servic.Prelude.{
  ◌≡◌, refl, ap, inl, inr, ℕ, none, some, List, [], ◌∷◌, ◌++◌, map, take, elem-append_right, All,
  All-append, subst,
}
use geo_notifications_servic.World.{World, Env, Item}
use geo_notifications_servic.World.Exec.{Result, ok, err, panicked}
use geo_notifications_servic.Outbox.{Event}
use geo_notifications_servic.Outbox.Laws.{content}
use geo_notifications_servic.Queue.{enqueue_batch}
use geo_notifications_servic.Relay
use geo_notifications_servic.Relay.{event_ids, to_item, mark}
use geo_notifications_servic.Relay.Trace.{
  item_ids, IsTraced, IsTraced-append, Among, item_ids-append, item_ids-to_item, claim-Among,
  All-take,
}
use geo_notifications_servic.System.{
  Phase, idle, claimed, pushed, State, put, after_claim, claim_step, push_step, finish_step,
}
use geo_notifications_servic.System.Effects.{
  Keeps-claim-Settled, Keeps-finish, Keeps-finish_failed, pushes,
}
use geo_notifications_servic.System.Invariant.{
  contents, Holds, IsSound, Extends, put-Holds, Extends-stream,
}

-- A step that leaves the stream and the requests, and changes the tables but not the contents.
settled-IsSound :
    {kept : List Item} (s : State) (v : World) (n : ℕ) (p : Phase)
    → IsSound kept s
    → IsTraced s.world.stream v.tables
    → contents v ≡ contents s.world
    → v.stream ≡ s.world.stream
    → v.posts ≡ s.world.posts
    → Holds v.stream (contents v) p
    → IsSound kept (record s { world = v; relays = put n p s.relays })
settled-IsSound s v n p h traced same stream posts k =
    let more : Extends s.world v = record {
      rows = λ it among. rw same among;
      ids = λ id k. rw stream k;
    } in
    record {
      lasting = λ it k. rw same (h.lasting it k);
      traced = rw stream traced;
      genuine = rw (same, stream) h.genuine;
      sent = rw (same, posts) h.sent;
      held = put-Holds s.world v s.relays n p more h.held k;
    }

-- A step that appends rows of the outbox to the stream.
pushed-IsSound :
    {kept : List Item} (s : State) (v : World) (n : ℕ) (p : Phase) (items : List Item)
    → IsSound kept s
    → v.tables ≡ s.world.tables
    → v.posts ≡ s.world.posts
    → v.stream ≡ s.world.stream ++ items
    → All (λ it. Among it (contents s.world)) items
    → Holds v.stream (contents v) p
    → IsSound kept (record s { world = v; relays = put n p s.relays })
pushed-IsSound s v n p items h tables posts added among k =
    let w = s.world in
    let more = Extends-stream w v items (ap (λ t. map content t.outbox) tables) added in
    record {
      lasting = λ it k. rw tables (h.lasting it k);
      traced = rw (added, tables) (IsTraced-append w.stream items w.tables h.traced);
      genuine =
          rw (added, tables)
            (All-append (λ it. Among it (contents w)) w.stream items h.genuine among);
      sent = rw (tables, posts) h.sent;
      held = put-Holds w v s.relays n p more h.held k;
    }

module _ (env : Env) where
  after_claim-Holds :
      (w : World) (r : Result (List Event))
      → (Relay.claim env w).0 ≡ r
      → let v = (Relay.claim env w).1 in Holds v.stream (contents v) (after_claim r)
  after_claim-Holds w (ok []) h = tt
  after_claim-Holds w (ok (ev ∷ evs)) h = claim-Among env w (ev ∷ evs) h
  after_claim-Holds w (err e) h = tt
  after_claim-Holds w (panicked p) h = tt

  pub claim-IsSound :
      {kept : List Item} (n : ℕ) (p : Phase) (s : State)
      → IsSound kept s
      → IsSound kept (claim_step env n p s)
  unfolding claim_step
  claim-IsSound n (claimed events) s h = h
  claim-IsSound n (pushed events e) s h = h
  claim-IsSound n idle s h =
      let w = s.world in
      let ((traced, same), (stream, keys, posts)) =
        (Keeps-claim-Settled env w.stream (contents w)).at w (h.traced, refl) in
      settled-IsSound s (Relay.claim env w).1 n (after_claim (Relay.claim env w).0) h traced same
        stream posts (after_claim-Holds w (Relay.claim env w).0 refl)

  pub finish-IsSound :
      {kept : List Item} (n : ℕ) (p : Phase) (s : State)
      → s.relays n ≡ p
      → IsSound kept s
      → IsSound kept (finish_step env n p s)
  unfolding finish_step
  finish-IsSound n idle s at_ h = h
  finish-IsSound n (claimed events) s at_ h = h
  finish-IsSound n (pushed events (some e)) s at_ h =
      let w = s.world in
      let ((traced, same), (stream, keys, posts)) =
        (Keeps-finish_failed env w.stream (contents w) events e).at w (h.traced, refl) in
      settled-IsSound s _ n idle h traced same stream posts tt
  finish-IsSound n (pushed events none) s at_ h =
      let w = s.world in
      let held : Holds w.stream (contents w) (pushed events none) =
        subst (Holds w.stream (contents w)) at_ (h.held n) in
      let ((traced, same), (stream, keys, posts)) =
        (Keeps-finish env w.stream (contents w) events held).at w (h.traced, refl) in
      settled-IsSound s _ n idle h traced same stream posts tt

  pub push-IsSound :
      {kept : List Item} (n : ℕ) (p : Phase) (s : State)
      → s.relays n ≡ p
      → IsSound kept s
      → IsSound kept (push_step env n p s)
  unfolding push_step
  push-IsSound n idle s at_ h = h
  push-IsSound n (pushed events e) s at_ h = h
  push-IsSound n (claimed events) s at_ h =
      let w = s.world in
      let items = map to_item events in
      let v = (enqueue_batch env items w).1 in
      let among : All (λ it. Among it (contents w)) items =
        subst (Holds w.stream (contents w)) at_ (h.held n) in
      let (tables, posts, ends) = pushes env items w in
      elim ends [
        | inl (done, added) ↦ rw done (
            pushed-IsSound s v n (pushed events none) items h tables posts added among λ id k.
              rw (added, item_ids-append w.stream items, item_ids-to_item events)
                (elem-append_right id (item_ids w.stream) (event_ids events) k))
        | inr (e, k, failed_, added) ↦ rw failed_ (
            pushed-IsSound s v n (pushed events (some e)) (take k items) h tables posts added
              (All-take _ k items among) tt)
      ]
