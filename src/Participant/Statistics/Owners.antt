-- ===== src/Participant/Statistics/Owners.antt =====
-- The users who have a VPN, counted.
use cyberx_event_mgmt.Base.{
  ℕ, ◌+◌, ◌-◌, Option, none, some, Bool, true, not, ◌&&◌, ◌||◌, List, [], ◌∷◌, ◌≡◌, refl, sym, ap,
  ◌∙◌, arith, inl, inr, Bool-cases, Option-cases, ◌==◌, ==→eq, opt_eq, is_some, find, select, count,
  contains, length, All, Unique, Distinct, count-contains,
}
use cyberx_event_mgmt.Vpn.Data.{Credential}
use cyberx_event_mgmt.Participant.Data.{User, Db, key_of, has_id}
use cyberx_event_mgmt.Participant.Delete.{is_of_credential}
use cyberx_event_mgmt.Participant.Delete.References.{Refers}
use cyberx_event_mgmt.Participant.Statistics.{
  add_owner, distinct_owners, count_with_vpn, get_statistics,
}

add_owner-Distinct : (o : Option ℕ) (ids : List ℕ) → Distinct ids → Distinct (add_owner o ids)
add_owner-Distinct none ids d = d
add_owner-Distinct (some i) ids d = elim (Bool-cases (contains ids i)) [
  | inl old ↦ rw old d
  | inr new ↦ rw new (new, d)
]

distinct_owners-Distinct : (cs : List Credential) → Distinct (distinct_owners cs)
unfolding distinct_owners
distinct_owners-Distinct [] = tt
distinct_owners-Distinct (c ∷ cs) =
    add_owner-Distinct c.assigned_to_user_id (distinct_owners cs) (distinct_owners-Distinct cs)

add_owner-contains :
    (o : Option ℕ) (ids : List ℕ) (i : ℕ)
    → contains (add_owner o ids) i ≡ opt_eq o (some i) || contains ids i
unfolding contains
add_owner-contains none ids i = refl
add_owner-contains (some k) ids i = elim (Bool-cases (contains ids k)) [
  | inl old ↦ elim (Bool-cases (k == i)) [
    | inl same ↦ rw (old, same) (ap (contains ids) (sym (==→eq k i same)) ∙ old)
    | inr other ↦ rw (old, other) refl
  ]
  | inr new ↦ rw new refl
]

-- Whoever owns a credential of the table is among the owners, and nobody else.
distinct_owners-contains :
    (cs : List Credential) (i : ℕ)
    → contains (distinct_owners cs) i ≡ is_some (find (is_of_credential i) cs)
unfolding distinct_owners contains find
distinct_owners-contains [] i = refl
distinct_owners-contains (c ∷ cs) i =
    add_owner-contains c.assigned_to_user_id (distinct_owners cs) i
    ∙ elim (Bool-cases (is_of_credential i c)) [
      | inl own ↦ rw own refl
      | inr other ↦ rw other (distinct_owners-contains cs i)
    ]

add_owner-All :
    (P : ℕ → Type 0) (Q : Option ℕ → Type 0) (o : Option ℕ) (ids : List ℕ)
    → ((i : ℕ) → Q (some i) → P i)
    → Q o
    → All P ids
    → All P (add_owner o ids)
add_owner-All P Q none ids f q h = h
add_owner-All P Q (some i) ids f q h = elim (Bool-cases (contains ids i)) [
  | inl old ↦ rw old h
  | inr new ↦ rw new (f i q, h)
]

distinct_owners-All :
    (users : List User) (cs : List Credential)
    → All (λ c. Refers users c.assigned_to_user_id) cs
    → All (λ i. is_some (find (has_id i) users) ≡ true) (distinct_owners cs)
unfolding distinct_owners
distinct_owners-All users [] h = tt
distinct_owners-All users (c ∷ cs) (h, hs) =
    add_owner-All (λ i. is_some (find (has_id i) users) ≡ true) (Refers users) c.assigned_to_user_id
      (distinct_owners cs) (λ i r. r) h (distinct_owners-All users cs hs)

distinct_owners-select :
    (cs : List Credential)
    → distinct_owners (select (λ c. is_some c.assigned_to_user_id) cs) ≡ distinct_owners cs
unfolding distinct_owners select
distinct_owners-select [] = refl
distinct_owners-select (c ∷ cs) = elim (Option-cases c.assigned_to_user_id) [
  | inl nobody ↦ rw nobody (distinct_owners-select cs)
  | inr (i, owner) ↦ rw owner (ap (add_owner (some i)) (distinct_owners-select cs))
]

count-cong :
    (p q : User → Bool) (us : List User) → ((u : User) → p u ≡ q u) → count p us ≡ count q us
unfolding count
count-cong p q [] h = refl
count-cong p q (u ∷ us) h = ground (arith, h u, count-cong p q us h)

count-not :
    (p : User → Bool) (us : List User)
    → count (λ u. not (p u)) us ≡ count (λ u. true) us - count p us
unfolding count
count-not p us = omega (arith, counted us)
  where
    counted : (us : List User) → count (λ u. not (p u)) us + count p us ≡ count (λ u. true) us
    counted [] = omega arith
    counted (u ∷ us) = ground (arith, counted us)

abbrev pub has_vpn : Db → User → Bool
has_vpn db u = is_some (find (is_of_credential u.id) db.credentials)

with_vpn-counted :
    (db : Db)
    → Unique key_of db.users
    → All (λ c. Refers db.users c.assigned_to_user_id) db.credentials
    → count_with_vpn db none ≡ count (has_vpn db) db.users
unfolding count_with_vpn
with_vpn-counted db unique credentials =
    ap length (distinct_owners-select db.credentials)
    ∙ sym (
        count-contains key_of (distinct_owners db.credentials) db.users
          (distinct_owners-Distinct db.credentials) unique
          (distinct_owners-All db.users db.credentials credentials))
    ∙ count-cong (λ u. contains (distinct_owners db.credentials) u.id) (has_vpn db) db.users
        (λ u. distinct_owners-contains db.credentials u.id)

-- With distinct ids, and every VPN credential that has an owner referring to a user, the statistics of
-- all users count those who have a VPN, however many, those who have none, the active and the inactive ones.
pub get_statistics_counts :
    (db : Db)
    → Unique key_of db.users
    → All (λ c. Refers db.users c.assigned_to_user_id) db.credentials
    → let s = get_statistics db none in
      (s.with_vpn_count ≡ count (has_vpn db) db.users)
      × (s.without_vpn_count ≡ count (λ u. not (has_vpn db u)) db.users)
      × (s.active_count ≡ count (λ u. u.is_active) db.users)
      × (s.inactive_count ≡ count (λ u. not u.is_active) db.users)
unfolding get_statistics
get_statistics_counts db unique refs =
    let vpns = with_vpn-counted db unique refs in
    let active =
      count-cong (λ u. u.is_active && true) (λ u. u.is_active) db.users (λ u. ground arith) in
    (
      vpns,
      ap (λ n. count (λ (u : User). true) db.users - n) vpns
          ∙ sym (count-not (has_vpn db) db.users),
      active,
      ap (λ n. count (λ (u : User). true) db.users - n) active
          ∙ sym (count-not (λ u. u.is_active) db.users),
    )
