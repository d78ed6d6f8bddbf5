-- ===== src/System/Growth.antt =====
-- What a request does to the outbox: it appends pending rows, or leaves it as it was.
use geo_notifications_servic.Prelude.{
  ◌≡◌, refl, sym, ap, ◌∙◌, ℕ, Bool, Option, none, some, String, List, [], ◌∷◌, ◌++◌, map, ℤ, pos,
  leb_ℤ, All, All-append, ltb_ℤ, ltb, length, select, not, elem,
}
use mathlib.Core.List.{append-nil, append_assoc}
use geo_notifications_servic.Domain.{Point, CreateIncident, UpdateIncident, ListFilter}
use geo_notifications_servic.World.{Env, Tables, Sequences, OutboxRow, IncidentRow, pending}
use geo_notifications_servic.World.Exec.{M, ◌>>=◌}
use geo_notifications_servic.Db.{Scope, Statement, SqlResult, done, refused, run_statement}
use geo_notifications_servic.Db.Keeps.{
  Keeps, Keeps-pure, Keeps-raise, Keeps-map_error, Keeps-if, Keeps-bind, Keeps-run_statement,
  Leaves, Leaves-if,
}
use geo_notifications_servic.Incidents
use geo_notifications_servic.Incidents.{
  insert_incident, the_row, select_by_id, select_page, update_where, deactivate_row, update_row,
  select_nearby, scanned, insert_check, insert_links, link_incidents,
}
use geo_notifications_servic.Incidents.Rows.{changes_nothing, scan_descriptions, has_duplicate}
use geo_notifications_servic.Outbox
use geo_notifications_servic.Outbox.{insert_row, new_row}

-- The second tables are the first ones with pending rows appended to the outbox.
abbrev pub Grown : Tables → Tables → Type 0
Grown t u =
    (rows : List OutboxRow) × (u.outbox ≡ t.outbox ++ rows) × All (λ r. r.status ≡ pending) rows

pub Grown-refl : (t : Tables) → Grown t t
Grown-refl t = ([], sym (append-nil t.outbox), tt)

-- What a statement accepts leaves the outbox as it was.
abbrev Spares : {A : Type 0} → Tables → SqlResult A → Type 0
Spares t r = Leaves (λ u. u.outbox ≡ t.outbox) r

module _ (start : Tables) (env : Env) where
  spared :
      {A : Type 0} (u : Tables) (r : SqlResult A)
      → Spares u r
      → Grown start u
      → Leaves (Grown start) r
  spared u (done a v) same (rows, grown, pending_) = (rows, same ∙ grown, pending_)
  spared u (refused e) same h = tt

  Keeps-sparing :
      {A : Type 0} (scope : Scope) (st : Statement A)
      → ((now : ℕ) (t : Tables) (s : Sequences) → Spares t (st now t s).0)
      → Keeps (Grown start) (run_statement env scope st)
  Keeps-sparing scope st k =
      Keeps-run_statement env scope st (λ now t s h. spared t (st now t s).0 (k now t s) h)

  module _ (scope : Scope) where
    Keeps-the_row : {A : Type 0} (r : Option A) → Keeps (Grown start) (the_row r)
    unfolding the_row
    Keeps-the_row none = Keeps-raise _
    Keeps-the_row (some a) = Keeps-pure a

    Keeps-get_context :
        {A : Type 0} (m : M (Option A))
        → Keeps (Grown start) m
        → Keeps (Grown start) (m >>= the_row)
    Keeps-get_context m k = Keeps-bind m the_row k Keeps-the_row

    insert_incident-Spares :
        (c : CreateIncident) (now : ℕ) (t : Tables) (s : Sequences)
        → Spares t (insert_incident c now t s).0
    unfolding insert_incident
    insert_incident-Spares c now t s =
        Leaves-if (λ u. u.outbox ≡ t.outbox) (leb_ℤ c.radius (pos 0)) _ _ tt refl

    pub Keeps-create : (c : CreateIncident) → Keeps (Grown start) (Incidents.create env scope c)
    unfolding Incidents.create
    Keeps-create c =
        Keeps-bind _ _
          (Keeps-map_error _ _ (
            Keeps-get_context _
              (Keeps-sparing scope (insert_incident c) (insert_incident-Spares c))))
          (λ row. Keeps-pure _)

    pub Keeps-get_by_id : (id : ℤ) → Keeps (Grown start) (Incidents.get_by_id env scope id)
    unfolding Incidents.get_by_id select_by_id
    Keeps-get_by_id id =
        Keeps-bind _ _
          (Keeps-map_error _ _
            (Keeps-get_context _ (Keeps-sparing scope (select_by_id id) (λ now t s. refl))))
          (λ row. Keeps-pure _)

    select_page-Spares :
        (f : ListFilter) (now : ℕ) (t : Tables) (s : Sequences) → Spares t (select_page f now t s).0
    unfolding select_page
    select_page-Spares f now t s =
        Leaves-if (λ u. u.outbox ≡ t.outbox) (ltb_ℤ f.limit (pos 0)) _ _ tt
          (Leaves-if (λ u. u.outbox ≡ t.outbox) (ltb_ℤ f.offset (pos 0)) _ _ tt refl)

    pub Keeps-list : (f : ListFilter) → Keeps (Grown start) (Incidents.list env scope f)
    unfolding Incidents.list
    Keeps-list f =
        Keeps-bind _ _
          (Keeps-map_error _ _ (Keeps-sparing scope (select_page f) (select_page-Spares f)))
          (λ rows. Keeps-pure _)

    update_where-Spares :
        (test : IncidentRow → Bool) (change : IncidentRow → IncidentRow) (now : ℕ) (t : Tables)
        (s : Sequences)
        → Spares t (update_where test change now t s).0
    unfolding update_where
    update_where-Spares test change now t s =
        Leaves-if (λ u. u.outbox ≡ t.outbox)
          (ltb 0
            (length (select (λ r. leb_ℤ r.radius (pos 0)) (map change (select test t.incidents)))))
          _ _ tt refl

    pub Keeps-deactivate : (id : ℤ) → Keeps (Grown start) (Incidents.deactivate env scope id)
    unfolding Incidents.deactivate deactivate_row
    Keeps-deactivate id =
        Keeps-bind _ _
          (Keeps-map_error _ _ (
            Keeps-get_context _
              (Keeps-sparing scope (deactivate_row id) (λ now. update_where-Spares _ _ now))))
          (λ row. Keeps-pure tt)

    pub Keeps-update :
        (id : ℤ) (u : UpdateIncident) → Keeps (Grown start) (Incidents.update env scope id u)
    unfolding Incidents.update update_row
    Keeps-update id u = Keeps-if (changes_nothing u) _ _ (Keeps-get_by_id id) (
        Keeps-bind _ _
          (Keeps-map_error _ _ (
            Keeps-get_context _
              (Keeps-sparing scope (update_row id u) (λ now. update_where-Spares _ _ now))))
          (λ row. Keeps-pure _))

    select_nearby-Spares :
        (p : Point) (limit : ℤ) (now : ℕ) (t : Tables) (s : Sequences)
        → Spares t (select_nearby env p limit now t s).0
    unfolding select_nearby
    select_nearby-Spares p limit now t s =
        Leaves-if (λ u. u.outbox ≡ t.outbox) (ltb_ℤ limit (pos 0)) _ _ tt refl

    pub Keeps-find_nearby :
        (p : Point) (limit : ℤ) → Keeps (Grown start) (Incidents.find_nearby env scope p limit)
    unfolding Incidents.find_nearby scanned
    Keeps-find_nearby p limit = Keeps-map_error _ _ (
        Keeps-bind _ _
          (Keeps-sparing scope (select_nearby env p limit) (select_nearby-Spares p limit))
          (λ rows. Keeps-if (scan_descriptions rows) _ _ (Keeps-pure _) (Keeps-raise _)))

    pub Keeps-count :
        (since : ℕ) → Keeps (Grown start) (Incidents.count_unique_users_since env scope since)
    unfolding Incidents.count_unique_users_since
    Keeps-count since = Keeps-map_error _ _ (Keeps-sparing scope _ (λ now t s. refl))

    Keeps-link :
        (check_id : ℕ) (ids : List ℕ) → Keeps (Grown start) (link_incidents env scope check_id ids)
    unfolding link_incidents insert_links
    Keeps-link check_id [] = Keeps-pure tt
    Keeps-link check_id (i ∷ is) = Keeps-map_error _ _ (
        Keeps-sparing scope (insert_links check_id (i ∷ is)) (λ now t s.
          Leaves-if (λ u. u.outbox ≡ t.outbox) (has_duplicate (i ∷ is)) _ _ tt
            (Leaves-if (λ u. u.outbox ≡ t.outbox)
              (ltb 0 (length (select (λ i. not (elem i (map (λ r. r.id) t.incidents))) (i ∷ is)))) _
              _ tt refl)))

    pub Keeps-record_check :
        (user_id : String) (p : Point) (ids : List ℕ)
        → Keeps (Grown start) (Incidents.record_check env scope user_id p ids)
    unfolding Incidents.record_check insert_check
    Keeps-record_check user_id p ids =
        Keeps-bind _ _
          (Keeps-map_error _ _ (Keeps-sparing scope (insert_check user_id p) (λ now t s. refl)))
          (λ id. Keeps-bind _ _ (Keeps-link id ids) (λ _. Keeps-pure id))

    -- A row that is enqueued is pending.
    inserted :
        (payload : Option String) (event_type : String) (now : ℕ) (u : Tables) (s : Sequences)
        → Grown start u
        → Leaves (Grown start) (insert_row payload event_type now u s).0
    unfolding insert_row new_row
    inserted none event_type now u s h = tt
    inserted (some payload) event_type now u s (rows, grown, waiting) = (
      rows ++ new_row s.outbox_id now event_type payload ∷ [],
      ap (λ l. l ++ new_row s.outbox_id now event_type payload ∷ []) grown
          ∙ append_assoc start.outbox rows _,
      All-append _ rows _ waiting (refl, tt),
    )

    pub Keeps-enqueue :
        (event_type payload : String)
        → Keeps (Grown start) (Outbox.enqueue env scope event_type payload)
    unfolding Outbox.enqueue
    Keeps-enqueue event_type payload = Keeps-map_error _ _ (
        Keeps-run_statement env scope (insert_row (env.jsonb payload) event_type)
          (inserted (env.jsonb payload) event_type))
