-- ===== src/Agent/Tasks/Timeouts.antt =====
-- Stale tasks and the rate limit.
use cyberx_event_mgmt.Base.{
  ℕ, ◌+◌, ◌-◌, ◌*◌, ◌<◌, String, Option, some, Bool, true, false, List, [], ◌∷◌, ◌≡◌, refl, arith,
  is_some, inl, inr, Option-cases, str_eq, eq_refl, eq_iff, ap, ◌∙◌, seconds, count,
  count-update-zero, find, update, length, length-update, find-append_none, find-append_some,
}
use cyberx_event_mgmt.Agent.Data.{Task, Db}
use cyberx_event_mgmt.Agent.Tasks.{
  create_task, new_task, is_after, check_rate_limit, is_stale, time_out, timeout_stale_tasks,
}

abbrev pub is_failed : Task → Bool
is_failed t = str_eq t.status "FAILED"

running_not_failed : (t : Task) → str_eq t.status "IN_PROGRESS" ≡ true → is_failed t ≡ false
running_not_failed t h = ap (λ s. str_eq s "FAILED") ((eq_iff t.status "IN_PROGRESS").0 h)

-- An update that sets a test on rows that did not meet it adds them to its count.
count-update_add :
    (p q : Task → Bool) (f : Task → Task) (ts : List Task)
    → ((t : Task) → p t ≡ true → q t ≡ false)
    → ((t : Task) → p t ≡ true → q (f t) ≡ true)
    → count q (update p f ts) ≡ count q ts + count p ts
unfolding count update
count-update_add p q f [] h k = omega arith
count-update_add p q f (t ∷ ts) h k = ground (arith, h t, k t, count-update_add p q f ts h k)

-- A timeout run answers with the number of tasks that it fails: the failed tasks are that many more,
-- no task is added or lost, and a second run at the same time finds none.
pub timeout_stale_tasks_counts :
    (timeout_minutes : ℕ) (message : String) (db : Db) (now : ℕ)
    → let (db', n) = timeout_stale_tasks timeout_minutes message db now in
      (count is_failed db'.tasks ≡ count is_failed db.tasks + n)
      × (length db'.tasks ≡ length db.tasks)
      × ((timeout_stale_tasks timeout_minutes message db' now).1 ≡ 0)
unfolding timeout_stale_tasks
timeout_stale_tasks_counts timeout_minutes message db now =
    let stale = is_stale (now - seconds (60 * timeout_minutes)) in
    (
      count-update_add stale is_failed (time_out now message) db.tasks
          (λ t h. running_not_failed t (ground (arith, h))) (λ t _. refl),
      length-update stale (time_out now message) db.tasks,
      count-update-zero stale stale (time_out now message) db.tasks (λ t _. refl) (λ t h. h),
    )

-- Once a task is created, its kind is limited for its instance until the minutes have passed,
-- whatever the other tasks.
pub create_task-check_rate_limit :
    (db : Db) (now later instance_id minutes user_id : ℕ) (task_type : String)
    (payload : Option String)
    → later < now + seconds (60 * minutes)
    → 0 < now
    → check_rate_limit
        (create_task db now instance_id task_type user_id payload).0
        later
        instance_id
        task_type
        minutes
      ≡ true
unfolding create_task find check_rate_limit
create_task-check_rate_limit db now later instance_id minutes user_id task_type payload h pos =
    let p = is_after (later - seconds (60 * minutes)) instance_id task_type in
    let t = new_task db.next_id now instance_id task_type user_id payload in
    let meets : p t ≡ true = ground (arith, h, pos, eq_refl task_type) in
    elim (Option-cases (find p db.tasks)) [
      | inl absent ↦ ap is_some (find-append_none p db.tasks (t ∷ []) absent ∙ single p t meets)
      | inr (u, found) ↦ ap is_some (find-append_some p db.tasks (t ∷ []) found)
    ]
  where
    single : (q : Task → Bool) (u : Task) → q u ≡ true → find q (u ∷ []) ≡ some u
    single q u m = rw m refl
