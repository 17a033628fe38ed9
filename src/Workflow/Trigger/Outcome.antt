-- ===== src/Workflow/Trigger/Outcome.antt =====
-- What a trigger leaves behind.
use cyberx_event_mgmt.Base.{
  ℕ, ◌+◌, String, Option, Bool, true, false, List, [], ◌∷◌, ◌++◌, ◌≡◌, refl, sym, ap, subst, ◌∙◌,
  arith, inl, inr, Bool-cases, if◌then◌else◌, map, length, length-append, Result, ok, raised,
}
use cyberx_event_mgmt.Auth.Data.{User}
use cyberx_event_mgmt.Event.Data.{Event}
use cyberx_event_mgmt.EmailQueue.Data.{Vars, Email}
use cyberx_event_mgmt.EmailQueue.Data as Queue
use cyberx_event_mgmt.EmailQueue.Valid.{IsValid}
use cyberx_event_mgmt.EmailQueue.Enqueue.{enqueue_email}
use cyberx_event_mgmt.EmailQueue.Batch.{Answer, accepted, refused, raises}
use cyberx_event_mgmt.EmailQueue.History.Invariant.{enqueue_email-IsValid}
use cyberx_event_mgmt.Workflow.Data.{Workflow, Triggered, Db, get_workflows_by_trigger, merged_vars}
use cyberx_event_mgmt.Workflow.Trigger.{
  only_active_event, get_user, Trigger, request_of, trigger_one, trigger_each, trigger_workflow,
  sent, queued, trigger_found, is_blocked,
}

-- The entry of a workflow that was sent or queued.
abbrev pub entry_of : Trigger → Workflow → Triggered
entry_of t w = record {
  user_id = t.user_id;
  workflow_id = w.id;
  trigger_event = t.trigger_event;
  send_mode = if w.send_immediately then "immediate" else "queued";
}

-- The first list is the second without some of its rows, in the same order.
pub data Sublist {ℓ} {A : Type ℓ} : List A → List A → Type ℓ where
  empty : Sublist [] []
  keeps : {x : A} {xs ys : List A} → Sublist xs ys → Sublist (x ∷ xs) (x ∷ ys)
  skips : {y : A} {xs ys : List A} → Sublist xs ys → Sublist xs (y ∷ ys)

Sublist-append :
    {A : Type 0} {ws vs xs ys : List A}
    → Sublist ws vs
    → Sublist xs ys
    → Sublist (ws ++ xs) (vs ++ ys)
Sublist-append empty t = t
Sublist-append (keeps s) t = keeps (Sublist-append s t)
Sublist-append (skips s) t = skips (Sublist-append s t)

Sublist-none : {A : Type 0} (ys : List A) → Sublist [] ys
Sublist-none [] = empty
Sublist-none (y ∷ ys) = skips (Sublist-none ys)

module _ (send : Option User → String → Vars → Answer) (clock : ℕ → ℕ) (t : Trigger) where
  -- From a table and a count to another, with the entries written on the way, of these workflows.
  record Wrote (ws : List Workflow) (before after : Db × ℕ) : Type 0 where
    entries : List Triggered
    written : after.0.audit ≡ before.0.audit ++ entries
    counted : after.1 ≡ before.1 + length entries
    within : Sublist entries (map (entry_of t) ws)
    valid : IsValid before.0.queue → IsValid after.0.queue

  append_nil : (xs : List Triggered) → xs ++ [] ≡ xs
  append_nil [] = refl
  append_nil (x ∷ xs) = ap (λ ys. x ∷ ys) (append_nil xs)

  append_assoc : (xs ys zs : List Triggered) → (xs ++ ys) ++ zs ≡ xs ++ (ys ++ zs)
  append_assoc [] ys zs = refl
  append_assoc (x ∷ xs) ys zs = ap (λ l. x ∷ l) (append_assoc xs ys zs)

  none-Wrote : (ws : List Workflow) (db : Db) (n : ℕ) → Wrote ws (db, n) (db, n)
  none-Wrote ws db n = record {
    entries = [];
    written = sym (append_nil db.audit);
    counted = omega arith;
    within = Sublist-none (map (entry_of t) ws);
    valid = λ v. v;
  }

  sent-Wrote :
      (w : Workflow) (db : Db) (n : ℕ) (a : Answer)
      → w.send_immediately ≡ true
      → Wrote (w ∷ []) (db, n) (sent send clock t w (db, n) a)
  unfolding sent
  sent-Wrote w db n (accepted message) at_once = record {
    entries = entry_of t w ∷ [];
    written = rw at_once refl;
    counted = omega arith;
    within = keeps empty;
    valid = λ v. v;
  }
  sent-Wrote w db n (refused message) at_once = none-Wrote (w ∷ []) db n
  sent-Wrote w db n (raises message) at_once = none-Wrote (w ∷ []) db n

  queued-Wrote :
      (w : Workflow) (db : Db) (n : ℕ) (q : Queue.Db) (r : Result Email)
      → w.send_immediately ≡ false
      → (IsValid db.queue → IsValid q)
      → Wrote (w ∷ []) (db, n) (queued send clock t w (db, n) (q, r))
  unfolding queued
  queued-Wrote w db n q (ok e) later h = record {
    entries = entry_of t w ∷ [];
    written = rw later refl;
    counted = omega arith;
    within = keeps empty;
    valid = h;
  }
  queued-Wrote w db n q (raised e) later h = record {
    entries = [];
    written = sym (append_nil db.audit);
    counted = omega arith;
    within = skips empty;
    valid = h;
  }

  either :
      (b : Bool) (ws : List Workflow) (s x y : Db × ℕ)
      → (b ≡ true → Wrote ws s x)
      → (b ≡ false → Wrote ws s y)
      → Wrote ws s (if b then x else y)
  either true ws s x y v w = v refl
  either false ws s x y v w = w refl

  trigger_one-Wrote : (w : Workflow) (s : Db × ℕ) → Wrote (w ∷ []) s (trigger_one send clock t w s)
  unfolding trigger_one
  trigger_one-Wrote w (db, n) =
      let q = request_of (clock w.id) t.user_id t.custom_vars t.force w in
      let (queue, r) = enqueue_email db.queue (clock w.id) q in
      either w.send_immediately (w ∷ []) (db, n) _ _
        (sent-Wrote w db n
          (send (get_user db t.user_id) w.template_name (merged_vars w t.custom_vars)))
        (λ later. queued-Wrote w db n queue r later (enqueue_email-IsValid db.queue (clock w.id) q))

  trigger_each-Wrote :
      (ws : List Workflow) (s : Db × ℕ) → Wrote ws s (trigger_each send clock t ws s)
  unfolding trigger_each
  trigger_each-Wrote [] (db, n) = none-Wrote [] db n
  trigger_each-Wrote (w ∷ ws) s =
      let one = trigger_one-Wrote w s in
      let rest = trigger_each-Wrote ws (trigger_one send clock t w s) in
      record {
        entries = one.entries ++ rest.entries;
        written =
            rest.written
            ∙ ap (λ log. log ++ rest.entries) one.written
            ∙ append_assoc s.0.audit one.entries rest.entries;
        counted = omega (arith, rest.counted, one.counted, length-append one.entries rest.entries);
        within = Sublist-append one.within rest.within;
        valid = λ v. rest.valid (one.valid v);
      }

  found-Wrote :
      (db : Db) (ws : List Workflow) (event : Result (Option Event)) (n : ℕ)
      → (trigger_found send clock t db ws event).1 ≡ ok n
      → Wrote ws (db, 0) ((trigger_found send clock t db ws event).0, n)
  unfolding trigger_found
  found-Wrote db [] event n e = subst (λ m. Wrote [] (db, 0) (db, m)) (cc e) (none-Wrote [] db 0)
  found-Wrote db (w ∷ ws) (raised x) n e = absurd (cc e)
  found-Wrote db (w ∷ ws) (ok event) n e =
      elim (Bool-cases (is_blocked send clock t event (get_user db t.user_id))) [
        | inl blocked ↦
            let zero_is : ok 0 ≡ ok n = rw blocked at e in
            rw blocked
              (subst (λ m. Wrote (w ∷ ws) (db, 0) (db, m)) (cc zero_is) (none-Wrote (w ∷ ws) db 0))
        | inr free ↦
            let count_is : ok (trigger_each send clock t (w ∷ ws) (db, 0)).1 ≡ ok n =
              rw free at e in
            rw free (
              subst
                (λ m. Wrote (w ∷ ws) (db, 0) ((trigger_each send clock t (w ∷ ws) (db, 0)).0, m))
                (cc count_is) (trigger_each-Wrote (w ∷ ws) (db, 0)))
      ]

  -- When a trigger in a valid queue answers with a count, it has written as many entries to the audit
  -- log: each is the entry of an enabled workflow of the event, with the user and the event of the call
  -- and the way the workflow sends, at most one for each of them and in their order; and the queue is
  -- valid.
  pub trigger_workflow_outcome :
      (db : Db) (n : ℕ)
      → IsValid db.queue
      → (trigger_workflow send clock t db).1 ≡ ok n
      → let db' = (trigger_workflow send clock t db).0 in
        (entries : List Triggered) × (db'.audit ≡ db.audit ++ entries)
        × (length entries ≡ n)
        × Sublist entries (map (entry_of t) (get_workflows_by_trigger db t.trigger_event true))
        × IsValid db'.queue
  unfolding trigger_workflow
  trigger_workflow_outcome db n v e =
      let wrote =
        found-Wrote db (get_workflows_by_trigger db t.trigger_event true) (only_active_event db) n
          e in
      (wrote.entries, wrote.written, omega (arith, wrote.counted), wrote.within, wrote.valid v)
