-- ===== src/EmailQueue/Batch/Delivery.antt =====
-- A batch leaves every email at rest: what it marks it also settles.
use cyberx_event_mgmt.Base.{
  ℕ, ◌≤◌, ◌<◌, String, some, true, false, List, [], ◌∷◌, map, ◌≡◌, refl, ap, subst, ◌⊎◌, inl, inr,
  arith, ◌==◌, ==→eq, contains, All, All-take, All-map, All-update, All-update_to, All-zip,
  All-select, All-sort_by, Bool-cases, Option-cases, select, select-All, find, find-none, update,
  Unique, Below, Unique-update, Unique-find, sort_by,
}
use cyberx_event_mgmt.EmailQueue.Data.{processing, Vars, Email, User, Db, has_id}
use cyberx_event_mgmt.EmailQueue.Batch.{
  Answer, Batch, mark, settle_row, Progress, round, deliver, is_ready, get_pending_emails,
  batch_ids, send_batch, tally, process_batch, comes_first,
}
use cyberx_event_mgmt.EmailQueue.Valid.{IsSound, IsValid}

settle_row-IsSound :
    (send : ℕ → User → String → Vars → Answer) (db : Db) (b : Batch) (e : Email)
    → e.attempts ≤ e.max_attempts
    → IsSound (settle_row send db b e)
settle_row-IsSound send db b e h = ground arith

settle_row-id :
    (send : ℕ → User → String → Vars → Answer) (db : Db) (b : Batch) (e : Email)
    → (settle_row send db b e).id ≡ e.id
settle_row-id send db b e = ground arith

pub emails-tally :
    (p : Progress) (emails : List Email) (e : Email) → (tally p emails e).emails ≡ emails
unfolding tally
emails-tally p emails e = ground arith

-- While the loop runs, a row rests or is one of those still to come.
abbrev IsUnderway : List ℕ → Email → Type 0
IsUnderway ids e =
    IsSound e
    ⊎ ((contains ids e.id ≡ true) × (e.attempts ≤ e.max_attempts) × (e.status ≡ processing))

underway-within : (ids : List ℕ) (e : Email) → IsUnderway ids e → e.attempts ≤ e.max_attempts
underway-within ids e u = ground (arith, u)

IsUnderway-skip :
    (i : ℕ) (ids : List ℕ) (e : Email)
    → has_id i e ≡ false
    → IsUnderway (i ∷ ids) e
    → IsUnderway ids e
unfolding contains
IsUnderway-skip i ids e n (inl s) = inl s
IsUnderway-skip i ids e n (inr (c, w, p)) = inr (ground arith, w, p)

module _ (send : ℕ → User → String → Vars → Answer) (db : Db) (b : Batch) where
  round-All :
      (i : ℕ) (ids : List ℕ) (p : Progress)
      → All (IsUnderway (i ∷ ids)) p.emails
      → All (IsUnderway ids) (round send db b p i (find (has_id i) p.emails)).emails
  unfolding round
  round-All i ids p a = elim (Option-cases (find (has_id i) p.emails)) [
    | inl missing ↦
        rw (missing, round)
          (All-map (λ e. (has_id i e ≡ false) × IsUnderway (i ∷ ids) e) (IsUnderway ids) p.emails
            (λ e (n, u). IsUnderway-skip i ids e n u)
            (All-zip (λ e. has_id i e ≡ false) (IsUnderway (i ∷ ids)) p.emails
              (find-none (has_id i) p.emails missing) a))
    | inr (e, found) ↦
        rw (found, round)
          (rw
            (emails-tally p (update (has_id i) (settle_row send db b) p.emails)
              (settle_row send db b e))
            (All-update_to (IsUnderway (i ∷ ids)) (IsUnderway ids) (has_id i) (settle_row send db b)
              p.emails
              (λ x _ u. inl (settle_row-IsSound send db b x (underway-within (i ∷ ids) x u)))
              (λ x n u. IsUnderway-skip i ids x n u) a))
  ]

  deliver-All :
      (ids : List ℕ) (p : Progress)
      → All (IsUnderway ids) p.emails
      → All IsSound (deliver send db b ids p).emails
  unfolding deliver contains
  deliver-All [] p a = All-map (IsUnderway []) IsSound p.emails (λ e u. ground (arith, u)) a
  deliver-All (i ∷ ids) p a =
      deliver-All ids (round send db b p i (find (has_id i) p.emails)) (round-All i ids p a)

  -- The loop changes no id.
  round-keys :
      (n i : ℕ) (p : Progress)
      → Unique (λ (e : Email). e.id) p.emails × Below (λ (e : Email). e.id) n p.emails
      → Unique (λ (e : Email). e.id) (round send db b p i (find (has_id i) p.emails)).emails
        × Below (λ (e : Email). e.id) n (round send db b p i (find (has_id i) p.emails)).emails
  unfolding round
  round-keys n i p (u, l) = elim (Option-cases (find (has_id i) p.emails)) [
    | inl missing ↦ rw (missing, round) (u, l)
    | inr (e, found) ↦
        rw (found, round)
          (rw
            (emails-tally p (update (has_id i) (settle_row send db b) p.emails)
              (settle_row send db b e))
            (
              Unique-update (λ (x : Email). x.id) (has_id i) (settle_row send db b) p.emails
                  (settle_row-id send db b) u,
              All-update (λ x. x.id < n) (has_id i) (settle_row send db b) p.emails
                  (λ x _ h. rw (settle_row-id send db b x) h) l,
            ))
  ]

  deliver-keys :
      (n : ℕ) (ids : List ℕ) (p : Progress)
      → Unique (λ (e : Email). e.id) p.emails × Below (λ (e : Email). e.id) n p.emails
      → Unique (λ (e : Email). e.id) (deliver send db b ids p).emails
        × Below (λ (e : Email). e.id) n (deliver send db b ids p).emails
  unfolding deliver
  deliver-keys n [] p k = k
  deliver-keys n (i ∷ ids) p k =
      deliver-keys n ids (round send db b p i (find (has_id i) p.emails)) (round-keys n i p k)

-- The emails of a batch are rows of the table, and ready.
abbrev pub IsPick : Db → Batch → Email → Type 0
IsPick db b e =
    (find (has_id e.id) db.emails ≡ some e) × (is_ready b.queried_at b.template_name e ≡ true)

pub picks :
    (db : Db) (b : Batch)
    → Unique (λ (e : Email). e.id) db.emails
    → All (IsPick db b) (get_pending_emails db b.queried_at b.batch_size b.template_name)
unfolding get_pending_emails
picks db b u =
    let ready = is_ready b.queried_at b.template_name in
    let rows = select ready db.emails in
    All-take (IsPick db b) b.batch_size (sort_by comes_first rows) (
      All-sort_by (IsPick db b) comes_first rows (
        All-zip (λ e. find (has_id e.id) db.emails ≡ some e) (λ e. ready e ≡ true) rows
          (All-select (λ e. find (has_id e.id) db.emails ≡ some e) ready db.emails
            (Unique-find (λ (e : Email). e.id) db.emails u))
          (select-All ready db.emails)))

-- A row with an id of the batch is the row that was picked.
pick-ready :
    (db : Db) (b : Batch) (es : List Email) (e : Email)
    → All (IsPick db b) es
    → find (has_id e.id) db.emails ≡ some e
    → contains (map (λ x. x.id) es) e.id ≡ true
    → is_ready b.queried_at b.template_name e ≡ true
unfolding contains
pick-ready db b [] e a f c = cc
pick-ready db b (x ∷ es) e ((g, r), a) f c = elim (Bool-cases (x.id == e.id)) [
  | inl same ↦
      let one : x ≡ e = cc (g, f, ap (λ k. find (has_id k) db.emails) (==→eq x.id e.id same)) in
      subst (λ z. is_ready b.queried_at b.template_name z ≡ true) one r
  | inr other ↦ pick-ready db b es e a f (rw other at c)
]

mark-IsUnderway :
    (db : Db) (b : Batch) (ids : List ℕ) (e : Email)
    → contains ids e.id ≡ true
    → is_ready b.queried_at b.template_name e ≡ true
    → IsUnderway ids (mark b e)
mark-IsUnderway db b ids e c r = inr (c, ground arith, refl)

send_batch-IsValid :
    (send : ℕ → User → String → Vars → Answer) (db : Db) (b : Batch) (ids : List ℕ)
    → All (λ e. contains ids e.id ≡ true → is_ready b.queried_at b.template_name e ≡ true) db.emails
    → IsValid db
    → IsValid (send_batch send db b ids).0
unfolding send_batch
send_batch-IsValid send db b [] r v = record { sound = v.sound; unique = v.unique; below = v.below }
send_batch-IsValid send db b (i ∷ ids) r v =
    let key = λ (e : Email). e.id in
    let marked = update (λ e. contains (i ∷ ids) e.id) (mark b) db.emails in
    let p : Progress = record { emails = marked; sent_count = 0; failed_count = 0 } in
    let keys = deliver-keys send db b db.next_id (i ∷ ids) p (
      Unique-update key (λ e. contains (i ∷ ids) e.id) (mark b) db.emails (λ e. refl) v.unique,
      All-update (λ e. e.id < db.next_id) (λ e. contains (i ∷ ids) e.id) (mark b) db.emails
          (λ e _ h. h) v.below,
    ) in
    record {
      sound = deliver-All send db b (i ∷ ids) p (
          All-update_to
            (λ e.
              IsSound e
              × (contains (i ∷ ids) e.id ≡ true → is_ready b.queried_at b.template_name e ≡ true))
            (IsUnderway (i ∷ ids)) (λ e. contains (i ∷ ids) e.id) (mark b) db.emails
            (λ e c (s, h). mark-IsUnderway db b (i ∷ ids) e c (h c)) (λ e _ (s, h). inl s)
            (All-zip IsSound _ db.emails v.sound r));
      unique = keys.0;
      below = keys.1;
    }

pub process_batch-IsValid :
    (send : ℕ → User → String → Vars → Answer) (db : Db) (b : Batch)
    → IsValid db
    → IsValid (process_batch send db b).0
unfolding process_batch
process_batch-IsValid send db b v =
    let es = get_pending_emails db b.queried_at b.batch_size b.template_name in
    send_batch-IsValid send db b (batch_ids db b)
      (All-map (λ e. find (has_id e.id) db.emails ≡ some e)
        (λ e.
          contains (batch_ids db b) e.id ≡ true → is_ready b.queried_at b.template_name e ≡ true)
        db.emails (λ e f c. pick-ready db b es e (picks db b v.unique) f c)
        (Unique-find (λ (e : Email). e.id) db.emails v.unique))
      v
