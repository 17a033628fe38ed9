-- ===== src/Auth/Sessions/Logout.antt =====
-- Sessions stay closed, whatever calls follow.
use cyberx_event_mgmt.Base.{
  ℕ, String, Option, none, some, Bool, true, false, List, [], ◌∷◌, ◌≡◌, ◌≢◌, refl, arith, inl, inr,
  Option-cases, Bool-cases, All, All-append, All-update, All-delete, All-map, find-none, find,
  find-all, update, ltb, find-holds, ◌==◌,
}
use cyberx_event_mgmt.Auth.Data.{User, Session, Db, has_token, has_user_id}
use cyberx_event_mgmt.Auth.Sessions.{
  new_session, create_session, deactivate, is_live, validate_session, invalidate_session,
  is_live_of, invalidate_all_user_sessions, is_over, cleanup_expired_sessions, session_cleanup_job,
}
use cyberx_event_mgmt.Auth.Sessions.Validity.{validate_session_iff}

-- The calls on sessions, with the expiry hours of the service.
pub data Call : Type 0 where
  creates : ℕ → String → ℕ → Option String → Option String → Call
  validates : String → Call
  invalidates : String → Call
  invalidates_all : ℕ → Call
  cleans : Call
  cleans_up : Call

unfoldable pub step : Db → ℕ × Call → Db
step db (now, creates hours token i ip agent) = (create_session db now hours token i ip agent).0
step db (now, validates token) = (validate_session db now token).0
step db (now, invalidates token) = (invalidate_session db token).0
step db (now, invalidates_all i) = (invalidate_all_user_sessions db i).0
step db (now, cleans) = (cleanup_expired_sessions db now).0
step db (now, cleans_up) = session_cleanup_job db now

unfoldable pub run : Db → List (ℕ × Call) → Db
unfolding step
run db [] = db
run db (c ∷ cs) = run (step db c) cs

-- A call that opens no session that meets the test.
abbrev pub OpensNone : (Session → Bool) → ℕ × Call → Type 0
OpensNone q (now, creates hours token i ip agent) =
    q (new_session now hours token i ip agent) ≡ false
OpensNone q (now, _) = Unit

-- No session that meets the test `q`, which does not read the activity, is active.
module _ (q : Session → Bool) (still : (s : Session) → q (deactivate s) ≡ q s) where
  abbrev Closed : Session → Type 0
  Closed s = q s ≡ true → s.is_active ≡ false

  update-Closed :
      (p : Session → Bool) (xs : List Session) → All Closed xs → All Closed (update p deactivate xs)
  update-Closed p xs a = All-update Closed p deactivate xs (λ s _ _ _. refl) a

  create_session-Closed :
      (db : Db) (now hours : ℕ) (token : String) (i : ℕ) (ip agent : Option String)
      → q (new_session now hours token i ip agent) ≡ false
      → All Closed db.sessions
      → All Closed (create_session db now hours token i ip agent).0.sessions
  unfolding create_session
  create_session-Closed db now hours token i ip agent k a =
      elim (Option-cases (find (has_token token) db.sessions)) [
        | inl free ↦ rw free (All-append Closed db.sessions _ a ((λ h. absurd (cc (h, k))), tt))
        | inr (s, taken) ↦ rw taken a
      ]

  validate_session-Closed :
      (db : Db) (now : ℕ) (token : String)
      → All Closed db.sessions
      → All Closed (validate_session db now token).0.sessions
  unfolding validate_session
  validate_session-Closed db now token a = elim (Option-cases (find (is_live token) db.sessions)) [
    | inl missing ↦ rw missing a
    | inr (s, live) ↦ elim (Bool-cases (ltb s.expires_at now)) [
      | inl over ↦ rw (live, over) (update-Closed (has_token token) db.sessions a)
      | inr in_time ↦ rw (live, in_time) a
    ]
  ]

  invalidate_session-Closed :
      (db : Db) (token : String)
      → All Closed db.sessions
      → All Closed (invalidate_session db token).0.sessions
  unfolding invalidate_session
  invalidate_session-Closed db token a = elim (Option-cases (find (has_token token) db.sessions)) [
    | inl missing ↦ rw missing a
    | inr (s, stored) ↦ rw stored (update-Closed (has_token token) db.sessions a)
  ]

  step-Closed :
      (db : Db) (c : ℕ × Call)
      → OpensNone q c
      → All Closed db.sessions
      → All Closed (step db c).sessions
  unfolding step invalidate_all_user_sessions cleanup_expired_sessions session_cleanup_job
  step-Closed db (now, creates hours token i ip agent) k a =
      create_session-Closed db now hours token i ip agent k a
  step-Closed db (now, validates token) k a = validate_session-Closed db now token a
  step-Closed db (now, invalidates token) k a = invalidate_session-Closed db token a
  step-Closed db (now, invalidates_all i) k a = update-Closed (is_live_of i) db.sessions a
  step-Closed db (now, cleans) k a = All-delete Closed (is_over now) db.sessions a
  step-Closed db (now, cleans_up) k a = All-delete Closed _ db.sessions a

  pub run-Closed :
      (db : Db) (cs : List (ℕ × Call))
      → All (OpensNone q) cs
      → All Closed db.sessions
      → All Closed (run db cs).sessions
  unfolding run
  run-Closed db [] k a = a
  run-Closed db (c ∷ cs) (k, ks) a = run-Closed (step db c) cs ks (step-Closed db c k a)

  -- Only a session outside the test validates.
  pub Closed-validate_session :
      (db : Db) (now : ℕ) (token : String) (u : User)
      → All Closed db.sessions
      → (validate_session db now token).1 ≡ some u
      → (s : Session) × (find (is_live token) db.sessions ≡ some s)
        × (q s ≡ false)
        × (find (has_user_id s.user_id) db.users ≡ some u)
  Closed-validate_session db now token u a e =
      let m = (validate_session_iff db now token u).0 e in
      let closed = find-all Closed (is_live token) db.sessions m.session m.live a in
      let live = find-holds (is_live token) db.sessions m.live in
      elim (Bool-cases (q m.session)) [
        | inl inside ↦ absurd (ground (arith, closed inside, live))
        | inr outside ↦ (m.session, m.live, outside, m.holder)
      ]

  -- An update that deactivates every active row of the test closes it.
  update_to-Closed :
      (p : Session → Bool) (xs : List Session)
      → ((s : Session) → q s ≡ true → s.is_active ≡ true → p s ≡ true)
      → All Closed (update p deactivate xs)
  unfolding update
  update_to-Closed p [] h = tt
  update_to-Closed p (s ∷ xs) h = (ground (arith, h s), update_to-Closed p xs h)

invalidated-Closed :
    (db : Db) (token : String)
    → All
        (λ s. has_token token s ≡ true → s.is_active ≡ false)
        (invalidate_session db token).0.sessions
unfolding invalidate_session
invalidated-Closed db token = elim (Option-cases (find (has_token token) db.sessions)) [
  | inl missing ↦ rw missing (
      All-map (λ s. has_token token s ≡ false) (λ s. has_token token s ≡ true → s.is_active ≡ false)
        db.sessions (λ s h e. absurd (cc (h, e))) (find-none (has_token token) db.sessions missing))
  | inr (s, stored) ↦
      rw stored
        (update_to-Closed (has_token token) (λ s. refl) (has_token token) db.sessions (λ s h _. h))
]

-- After a logout the token is refused, whatever calls at whatever times come between, as long as
-- none of them creates a session with that very token.
pub validate_session_after_logout :
    (db : Db) (later : ℕ) (token : String) (cs : List (ℕ × Call))
    → All (OpensNone (has_token token)) cs
    → (validate_session (run (invalidate_session db token).0 cs) later token).1 ≡ none
validate_session_after_logout db later token cs k =
    let end = run (invalidate_session db token).0 cs in
    let closed =
      run-Closed (has_token token) (λ s. refl) (invalidate_session db token).0 cs k
        (invalidated-Closed db token) in
    elim (Option-cases (validate_session end later token).1) [
      | inl refused ↦ refused
      | inr (u, given) ↦
          let (s, live, outside, _) =
            Closed-validate_session (has_token token) (λ s. refl) end later token u closed given in
          absurd (ground (arith, find-holds (is_live token) end.sessions live, outside))
    ]

-- After all sessions of a user are invalidated, no token validates as that user, whatever calls at
-- whatever times come between, as long as none of them creates a session for the user.
pub validate_session_after_revocation :
    (db : Db) (later i : ℕ) (token : String) (cs : List (ℕ × Call)) (u : User)
    → All (OpensNone (λ s. s.user_id == i)) cs
    → (validate_session (run (invalidate_all_user_sessions db i).0 cs) later token).1 ≡ some u
    → u.id ≢ i
unfolding invalidate_all_user_sessions
validate_session_after_revocation db later i token cs u k given same =
    let q : Session → Bool = λ s. s.user_id == i in
    let start = (invalidate_all_user_sessions db i).0 in
    let end = run start cs in
    let closed =
      run-Closed q (λ s. refl) start cs k
        (update_to-Closed q (λ s. refl) (is_live_of i) db.sessions
          (λ s h e. ground (arith, h, e))) in
    let (s, live, outside, holder) =
      Closed-validate_session q (λ s. refl) end later token u closed given in
    ground (arith, outside, same, find-holds (has_user_id s.user_id) end.users holder)
