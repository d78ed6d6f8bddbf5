-- ===== src/System/Runs.antt =====
-- However the steps interleave, and whichever of their calls fail, the invariant holds.
use geo_notifications_servic.Prelude.{
  ◌≡◌, refl, sym, inl, inr, ℕ, zero, suc, Option, none, some, String, List, [], ◌∷◌, ◌*◌, All, Bool,
  All-append, All-imp,
}
use geo_notifications_servic.World.{Env, Item, Post, Tables, Reply, fine, failed}
use geo_notifications_servic.Db.{tx, pool}
use geo_notifications_servic.Db.Keeps.{Keeps-within_tx_root}
use geo_notifications_servic.TxRunner.{base_repository, tx_runner, checker, outbox_writer}
use geo_notifications_servic.Service.Keeps.{Keeps-record_and_publish}
use geo_notifications_servic.Cache.{cached_repository}
use geo_notifications_servic.Cache.Writes
use geo_notifications_servic.Cache.Writes.{Keeps-bumped}
use geo_notifications_servic.Relay.Trace.{Among}
use geo_notifications_servic.Webhook.Loop.{delivers}
use geo_notifications_servic.Webhook.{copies, nth, read_next, handle_entry, iteration}
use geo_notifications_servic.Handlers.{Gin}
use geo_notifications_servic.Config.{Config}
use geo_notifications_servic.Health.Keeps.{Keeps-redis_ping, Keeps-postgres_ping}
use geo_notifications_servic.Router.{App, Request, serve}
use geo_notifications_servic.System.{
  idle, State, Action, request, claim, push, finish, stop, deliver, act, run, main_app,
}
use geo_notifications_servic.System.Growth
use geo_notifications_servic.System.Growth.{Grown, Grown-refl}
use geo_notifications_servic.System.Requests.{KeptPorts, serve-keeps}
use geo_notifications_servic.System.Invariant.{
  contents, SentFrom, IsSound, Holds-imp, SentFrom-imp, put-Holds, Extends-Grown, Grown-IsTraced,
}
use geo_notifications_servic.System.Soundness.{claim-IsSound, push-IsSound, finish-IsSound}

-- The ports of `main` change the outbox by new pending rows only.
KeptPorts-main :
    (start : Tables) (env : Env) (ttl : ℕ)
    → KeptPorts (Grown start) env (cached_repository env ttl (base_repository env)) (tx_runner env)
KeptPorts-main start env ttl = record {
  create = λ c. Keeps-bumped env _ (Growth.Keeps-create start env pool c);
  get_by_id = λ id. Growth.Keeps-get_by_id start env pool id;
  list = λ f. Writes.Keeps-list env ttl (base_repository env) (Growth.Keeps-list start env pool) f;
  update = λ id u. Keeps-bumped env _ (Growth.Keeps-update start env pool id u);
  deactivate = λ id. Keeps-bumped env _ (Growth.Keeps-deactivate start env pool id);
  find_nearby = λ p limit. Growth.Keeps-find_nearby start env pool p limit;
  count = λ since. Growth.Keeps-count start env pool since;
  record_and_publish = λ c ids. Keeps-within_tx_root env _ (
      Keeps-record_and_publish env (outbox_writer env tx) (Growth.Keeps-enqueue start env tx)
        (checker env tx) (Growth.Keeps-record_check start env tx) c ids);
}

nth-All :
    (Q : Item → Type 0) (n : ℕ) (items : List Item) (it : Item)
    → nth n items ≡ some it
    → All Q items
    → Q it
nth-All Q n [] it found h = absurd (cc)
nth-All Q zero (x ∷ items) it found (k, h) = let same : x ≡ it = cc in rw (← same) k
nth-All Q (suc n) (x ∷ items) it found (k, h) = nth-All Q n items it found h

All-copies : (Q : Post → Type 0) (n : ℕ) (p : Post) → Q p → All Q (copies n p)
All-copies Q zero p h = tt
All-copies Q (suc n) p h = (h, All-copies Q n p h)

-- The handling of a message, and of none.
handled-IsSound :
    {kept : List Item} (env : Env) (r : Option Item) (n : ℕ) (s : State)
    → ((it : Item) → r ≡ some it → Among it (contents s.world))
    → IsSound kept s
    → IsSound kept (record s {
      world = handle_entry env s.read r (record s.world { calls = suc s.world.calls });
      read = n;
    })
unfolding handle_entry
handled-IsSound env none n s among h = record {
  lasting = h.lasting;
  traced = h.traced;
  genuine = h.genuine;
  sent = h.sent;
  held = h.held;
}
handled-IsSound env (some it) n s among h =
    let w = s.world in
    let (tables, stream, posts) = delivers env it s.read (record w { calls = suc w.calls }) in
    record {
      lasting = λ it k. rw tables (h.lasting it k);
      traced = rw (tables, stream) h.traced;
      genuine = rw (tables, stream) h.genuine;
      sent = elim posts [
        | inl none_ ↦ rw (tables, none_) h.sent
        | inr (p, k, body, more) ↦
            rw (tables, more)
              (All-append (SentFrom (contents w)) w.posts (copies k p) h.sent
                (All-copies (SentFrom (contents w)) k p (it, among it refl, sym body)))
      ];
      held = λ n. rw (tables, stream) (h.held n);
    }

-- What is read is an item of the stream.
read_next-nth :
    (r : Reply) (x : Option Item) (n : ℕ) (it : Item) → (read_next r x n).0 ≡ some it → x ≡ some it
unfolding read_next
read_next-nth fine none n it h = absurd (cc)
read_next-nth fine (some x) n it h = h
read_next-nth (failed k e) none n it h = absurd (cc)
read_next-nth (failed k e) (some x) n it h = absurd (cc)

deliver-IsSound :
    {kept : List Item} (env : Env) (s : State)
    → IsSound kept s
    → let (w, n) = iteration env s.read s.world in IsSound kept (record s { world = w; read = n })
unfolding iteration
deliver-IsSound env s h =
    let w = s.world in
    let x = nth s.read w.stream in
    let (next, n) = read_next (env.reply w.calls) x s.read in
    handled-IsSound env next n s
      (λ it found.
        nth-All (λ it. Among it (contents w)) s.read w.stream it
          (read_next-nth (env.reply w.calls) x s.read it found) h.genuine)
      h

module _ (gin : Gin) (env : Env) (timer_first : ℕ → Bool) (cfg : Config)
    (random_id : ℕ → Option String) where
  abbrev app : App
  app = main_app env timer_first cfg random_id

  request-IsSound :
      {kept : List Item} (req : Request) (s : State)
      → IsSound kept s
      → IsSound kept (record s { world = (serve gin env app req s.world).1 })
  unfolding main_app
  request-IsSound req s h =
      let w = s.world in
      let v = (serve gin env app req w).1 in
      let (grown, (stream, keys, posts)) =
        serve-keeps gin env app
          (KeptPorts-main w.tables env (cfg.active_incidents_ttl_seconds * 1000000000))
          (Keeps-postgres_ping env timer_first, (Keeps-redis_ping env, (Keeps-redis_ping env, tt)))
          req w (Grown-refl w.tables) in
      let more = Extends-Grown w v grown stream in
      record {
        lasting = λ it k. more.rows it (h.lasting it k);
        traced = rw stream (Grown-IsTraced w.stream w.tables v.tables grown h.traced);
        genuine = rw stream (All-imp more.rows w.stream h.genuine);
        sent = rw posts (SentFrom-imp w v more w.posts h.sent);
        held = λ n. Holds-imp w v more (s.relays n) (h.held n);
      }

  act-IsSound :
      {kept : List Item} (a : Action) (s : State)
      → IsSound kept s
      → IsSound kept (act env gin app a s)
  unfolding act
  act-IsSound (request req) s h = request-IsSound req s h
  act-IsSound (claim n) s h = claim-IsSound env n (s.relays n) s h
  act-IsSound (push n) s h = push-IsSound env n (s.relays n) s refl h
  act-IsSound (finish n) s h = finish-IsSound env n (s.relays n) s refl h
  act-IsSound (stop n) s h = record {
    lasting = h.lasting;
    traced = h.traced;
    genuine = h.genuine;
    sent = h.sent;
    held =
        put-Holds s.world s.world s.relays n idle (record { rows = λ it k. k; ids = λ id k. k })
          h.held tt;
  }
  act-IsSound deliver s h = deliver-IsSound env s h

  -- In whatever order requests, the steps of any number of relays, their stops and the deliveries follow one another, and whichever of their
  -- calls fail and however: if before them every dispatched row of the outbox was in the stream,
  -- every item of the stream, every request that had reached the webhook and every event that a relay
  -- held came from a row of the outbox, then so it is after them; and no row that was there is lost.
  pub run-IsSound :
      (kept : List Item) (actions : List Action) (s : State)
      → IsSound kept s
      → IsSound kept (run env gin app actions s)
  unfolding run
  run-IsSound kept [] s h = h
  run-IsSound kept (a ∷ actions) s h =
      run-IsSound kept actions (act env gin app a s) (act-IsSound a s h)
