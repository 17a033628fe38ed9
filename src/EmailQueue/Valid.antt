-- ===== src/EmailQueue/Valid.antt =====
-- The invariant of the queue's table.
use cyberx_event_mgmt.Base.{
  ◌≤◌, ◌<◌, Bool, true, ◌≡◌, ◌≢◌, is_some, All, All-update, update, Unique, Below, Unique-update,
}
use cyberx_event_mgmt.EmailQueue.Data.{pending, processing, sent, Email, Db}

-- An email that rests in the queue: no attempt beyond the limit, an attempt left while it is
-- pending, not being sent, and with its time of sending once it is sent.
pub record IsSound (e : Email) : Type 0 where
  pub within : e.attempts ≤ e.max_attempts
  pub left : e.status ≡ pending → e.attempts < e.max_attempts
  pub rests : e.status ≢ processing
  pub dated : e.status ≡ sent → is_some e.sent_at ≡ true

pub record IsValid (db : Db) : Type 0 where
  pub sound : All IsSound db.emails
  pub unique : Unique (λ (e : Email). e.id) db.emails
  pub below : Below (λ (e : Email). e.id) db.next_id db.emails

-- An update that keeps ids keeps the table's keys.
pub update-IsValid :
    (db : Db) (p : Email → Bool) (f : Email → Email)
    → ((e : Email) → (f e).id ≡ e.id)
    → ((e : Email) → IsSound e → IsSound (f e))
    → IsValid db
    → IsValid (record db { emails = update p f db.emails })
update-IsValid db p f k s v = record {
  sound = All-update IsSound p f db.emails (λ e _. s e) v.sound;
  unique = Unique-update (λ (e : Email). e.id) p f db.emails k v.unique;
  below = All-update (λ e. e.id < db.next_id) p f db.emails (λ e _ h. rw (k e) h) v.below;
}
