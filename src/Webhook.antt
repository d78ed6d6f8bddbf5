-- ===== src/Webhook.antt =====
-- internal/workers/webhook/worker.go: a message of the stream is delivered to the webhook's target,
-- guarded by a key in Redis that is set before the request is sent. Logging is left out.
pub mod Delivery
pub mod Loop
pub mod Progress
pub mod Once
use geo_notifications_servic.Prelude.{
  ℕ, zero, suc, pos, ◌+◌, ◌*◌, ◌≡◌, Bool, true, false, ◌||◌, ◌&&◌, Option, none, some, String, List,
  [], ◌∷◌, ◌++◌, ltb, leb, ◌==◌, ℤ, ◌==ℤ◌, if◌then◌else◌,
}
use geo_notifications_servic.Errs.{GoError, plain}
use geo_notifications_servic.Domain.{CheckCompleted}
use geo_notifications_servic.World.{World, Env, Reply, fine, failed, Post, Item}
use geo_notifications_servic.World.Exec.{Result, ok, err, M, pure, raise, error_of, ◌>>=◌, ◌>>◌}

-- The values of a stream entry: `body`, and `outbox_id` as the text that was stored and the number
-- that `strconv.ParseInt` reads in it, which is none where the text is no int64.
pub record Values : Type 0 where
  pub body : Option String
  pub outbox_id : Option (Option ℤ)

-- A day in nanoseconds: the field `dedupeTTL`.
abbrev pub dedupe_ttl : ℕ
dedupe_ttl = 24 * 3600 * 1000000000

-- Whether a key is there and has not expired.
unfoldable pub has_key : ℤ → ℕ → List (ℤ × ℕ) → Bool
has_key key now [] = false
has_key key now ((k, expires) ∷ rest) =
    let later = has_key key now rest in (key ==ℤ k && ltb now expires) || later

-- Whether Redis had carried out a try whose reply was lost.
unfoldable pub carried_out : List ℕ → Bool
carried_out [] = false
carried_out (reached ∷ tries) = let rest = carried_out tries in ltb 0 reached || rest

-- SETNX with a time to live; true if the key was set. A try that follows on one which has set the key
-- finds it set, and the answer is false.
set_nx_reply : Env → ℤ → Reply → M Bool
set_nx_reply env key r w =
    let now = env.clock w.calls in
    let set = record w { calls = suc w.calls; processed = (key, now + dedupe_ttl) ∷ w.processed } in
    let unset = record w { calls = suc w.calls } in
    let taken = has_key key now w.processed in
    elim r [
      | fine ↦
          if taken
          then (ok false, unset)
          else (if carried_out (env.lost_tries w.calls) then (ok false, set) else (ok true, set))
      | failed reached e ↦ (err e, if taken || reached == 0 then unset else set)
    ]

unfoldable pub set_nx : Env → ℤ → M Bool
unfolding set_nx_reply has_key
set_nx env key w = set_nx_reply env key (env.reply w.calls) w

-- A request, sent as often as the number says.
abbrev pub copies : ℕ → Post → List Post
copies zero p = []
copies (suc n) p = p ∷ copies n p

-- `httpClient.Do`: the status of the answer. net/http may send the request several times: it has an
-- `Idempotency-Key` and a body that can be read again. One that fails may have reached the target too.
post_reply : Env → Post → Reply → M ℕ
post_reply env p r w =
    let sent : ℕ → World = λ n. record w { calls = suc w.calls; posts = w.posts ++ copies n p } in
    elim r [
      | fine ↦ (ok (env.http_status w.calls), sent (suc (env.resends w.calls)))
      | failed reached e ↦ (err e, sent reached)
    ]

unfoldable pub do_request : Env → Post → M ℕ
unfolding post_reply
do_request env p w = post_reply env p (env.reply w.calls) w

need {ℓ} : {A : Type ℓ} → Option A → String → M A
need none text = raise (plain text)
need (some a) text = pure a

check_status : ℕ → M (Unit {0})
check_status status =
    if ltb status 200 || leb 300 status then raise (plain "webhook non-2xx") else pure tt

-- `http.NewRequestWithContext`
valid_target : Bool → M (Unit {0})
valid_target false = raise (plain "parse: invalid URL")
valid_target true = pure tt

abbrev pub request : String → CheckCompleted → Post
request body ev = record { body = body; idempotency_key = ev.check_id }

-- The request for an event whose key has just been set.
deliver : Env → String → M (Unit {0})
deliver env body = do
  ev ← need (env.unmarshal_event body) "json: cannot unmarshal"
  valid_target env.is_valid_target
  status ← do_request env (request body ev)
  check_status status

deliver_once : Env → String → Bool → M (Unit {0})
deliver_once env body false = pure tt
deliver_once env body true = deliver env body

unfoldable pub handle : Env → Values → M (Unit {0})
unfolding need check_status deliver deliver_once set_nx do_request valid_target
handle env values = do
  body ← need values.body "missing body"
  outbox_id_text ← need values.outbox_id "missing outbox_id"
  outbox_id ← need outbox_id_text "invalid outbox_id"
  ok_nx ← set_nx env outbox_id
  deliver_once env body ok_nx

-- XACK of the n-th entry of the stream; its error is ignored.
xack : Env → ℕ → M (Unit {0})
xack env n w = elim (env.reply w.calls) [
  | fine ↦ (ok tt, record w { calls = suc w.calls; acked = w.acked ++ n ∷ [] })
  | failed reached e ↦ (
    ok tt,
    if reached == 0
        then record w { calls = suc w.calls }
        else record w { calls = suc w.calls; acked = w.acked ++ n ∷ [] },
  )
]

ack_if_handled : Env → ℕ → Option GoError → M (Unit {0})
ack_if_handled env n none = xack env n
ack_if_handled env n (some e) = pure tt

-- The body of the loop of `Run` for the n-th entry, and the loop over the entries that are read
-- one after another; an entry is read once (`>`), and one that fails stays unacknowledged.
unfoldable pub on_message : Env → ℕ → Values → M (Unit {0})
unfolding ack_if_handled xack
on_message env n values = do
  handle_err ← error_of (handle env values)
  ack_if_handled env n handle_err

unfoldable pub consume : Env → ℕ → List Values → M (Unit {0})
consume env n [] = pure tt
consume env n (v ∷ vs) = on_message env n v >>= λ _. consume env (suc n) vs

-- The message of a stream entry: redis returns the id as the text that `ParseInt` reads back.
abbrev pub entry : Item → Values
entry it = record { body = some it.payload; outbox_id = some (some (pos it.outbox_id)) }

abbrev pub nth : ℕ → List Item → Option Item
nth n [] = none
nth zero (it ∷ items) = some it
nth (suc n) (it ∷ items) = nth n items

-- XREADGROUP for the group that has read the first entries: the next one, if there is one. A read
-- that fails may have been carried out, and its entry is then not read again (`>`).
unfoldable pub read_next : Reply → Option Item → ℕ → Option Item × ℕ
read_next fine none n = (none, n)
read_next fine (some it) n = (some it, suc n)
read_next (failed reached e) none n = (none, n)
read_next (failed reached e) (some it) n = (none, if reached == 0 then n else suc n)

unfoldable pub handle_entry : Env → ℕ → Option Item → World → World
handle_entry env n none w = w
handle_entry env n (some it) w = (on_message env n (entry it) w).1

-- An iteration of the loop of `Run`, with the number of entries that the group has read.
unfoldable pub iteration : Env → ℕ → World → World × ℕ
unfolding read_next handle_entry
iteration env n w =
    let (next, n') = read_next (env.reply w.calls) (nth n w.stream) n in
    (handle_entry env n next (record w { calls = suc w.calls }), n')

abbrev pub cancelled : GoError
cancelled = plain "context canceled"

-- The loop of `Run`, given for each iteration whether the context is done; none where it goes on.
unfoldable pub loop : Env → List Bool → ℕ → World → Option GoError × World
unfolding iteration
loop env [] n w = (none, w)
loop env (true ∷ done) n w = (some cancelled, w)
loop env (false ∷ done) n w = let (w', n') = iteration env n w in loop env done n' w'

-- XGROUP CREATE … MKSTREAM, whose error is ignored, and the loop.
unfoldable pub run : Env → List Bool → ℕ → World → Option GoError × World
unfolding loop
run env done n w = loop env done n (record w { calls = suc w.calls })
