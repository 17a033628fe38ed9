-- ===== src/Vpn/Cycle/Ties.antt =====
-- After a cycle, the burned credential and the new one are both linked to the instance, and the
-- query for the instance's credential cannot tell them apart.
use cyberx_event_mgmt.Base.{
  ℕ, ◌<◌, String, Option, none, some, Bool, true, false, not, ◌&&◌, List, [], ◌∷◌, ◌≡◌, ◌≢◌, refl,
  sym, ap, ◌∙◌, arith, ◌==◌, leb, if◌then◌else◌, find, find-update, find-all, update, subst, ok,
  All, Unique, picks-All, picks-stored, is_picked, All-is_picked,
}
use cyberx_event_mgmt.Vpn.Data.{Credential, Db, key_of, has_id}
use cyberx_event_mgmt.Vpn.Pool.{
  is_free, choose, take_for_instance, put_rows, assign_chosen, assign_vpn_to_instance,
}
use cyberx_event_mgmt.Vpn.Cycle.{
  comes_first, is_of_instance, get_instance_vpn, burn, Cycled, finish_cycle, cycle_vpn,
}

-- A success comes from a row that was chosen, and the burned row is written last.
finish_chosen :
    (db : Db) (f : Credential → Credential) (done nothing : String) (cs : List Credential)
    (old : Option Credential) {db' : Db} {r : Cycled}
    → finish_cycle db old (assign_chosen db f done nothing cs) ≡ (db', ok r)
    → (c : Credential) × (rest : List Credential) × (cs ≡ c ∷ rest)
      × (r.new_vpn ≡ f c)
      × (db' ≡ burn old (put_rows db (is_picked key_of cs) f))
unfolding assign_chosen finish_cycle
finish_chosen db f done nothing [] old e = cc
finish_chosen db f done nothing (c ∷ rest) old e =
    (c, rest, refl, ground (arith, e), ground (arith, e))

take_for_instance-rest :
    (now i : ℕ) (c : Credential)
    → 0 < i
    → ((take_for_instance now i c).id ≡ c.id)
      × ((take_for_instance now i c).assigned_at ≡ c.assigned_at)
      × (is_of_instance i (take_for_instance now i c) ≡ true)
unfolding take_for_instance
take_for_instance-rest now i c pos = (ground arith, ground arith, ground arith)

kept :
    (p : Credential → Bool) (f : Credential → Credential) (cs : List Credential) (old : Credential)
    → ((c : Credential) → (f c).id ≡ c.id)
    → find (has_id old.id) cs ≡ some old
    → p old ≡ false
    → find (has_id old.id) (update p f cs) ≡ some old
kept p f cs old same found out =
    find-update p (has_id old.id) f cs (λ c. ap (λ k. k == old.id) (same c)) ∙ rw (found, out) refl

-- A row that is out of the pool is the same when it is burned.
burn-kept :
    (db : Db) (old : Credential)
    → find (has_id old.id) db.credentials ≡ some old
    → old.is_available ≡ false
    → find (has_id old.id) (burn (some old) db).credentials ≡ some old
unfolding burn
burn-kept db old found gone =
    find-update (has_id old.id) (has_id old.id) (λ c. record c { is_available = false })
      db.credentials (λ c. refl)
    ∙ rw found (same old gone)
  where
    same :
        (c : Credential)
        → c.is_available ≡ false
        → some (if c.id == c.id then record c { is_available = false } else c) ≡ some c
    same c gone = ground (arith, gone)

-- Take a credential of an instance that is out of the pool and that no user ever had, in a table
-- whose free rows no user ever had. When a cycle of the instance succeeds, the new credential is
-- another one, which was free, the old one stays in the table as it was, linked to the instance as
-- the new one is, and the query for the instance's credential orders neither before the other.
pub cycle_vpn_tie :
    (rank : ℕ → ℕ) (locked : ℕ → Bool) (db db' : Db) (now i : ℕ) (old : Credential) {r : Cycled}
    → Unique key_of db.credentials
    → All (λ c. c.is_available ≡ true → c.assigned_at ≡ none) db.credentials
    → 0 < i
    → get_instance_vpn db i ≡ some old
    → find (has_id old.id) db.credentials ≡ some old
    → old.is_available ≡ false
    → old.assigned_at ≡ none
    → is_of_instance i old ≡ true
    → cycle_vpn rank locked db now i ≡ (db', ok r)
    → (r.new_vpn.id ≢ old.id)
      × (find (has_id old.id) db'.credentials ≡ some old)
      × (is_of_instance i r.new_vpn ≡ true)
      × (comes_first old r.new_vpn ≡ true)
      × (comes_first r.new_vpn old ≡ true)
unfolding cycle_vpn assign_vpn_to_instance
cycle_vpn_tie rank locked db db' now i old {r} u unset pos first found gone old_unset linked
      success =
    let kind : String = "INSTANCE_AUTO_ASSIGN" in
    let f = take_for_instance now i in
    let le : Credential → Credential → Bool = λ a b. leb (rank a.id) (rank b.id) in
    let p : Credential → Bool = λ c. is_free kind c && not (locked c.id) in
    let cs = choose rank locked kind 1 db.credentials in
    let (c, rest, chosen, new, written) =
      finish_chosen db f "VPN assigned to instance successfully"
        "No available INSTANCE_AUTO_ASSIGN VPN credentials" cs (get_instance_vpn db i) {r = r}
        success in
    let free : p c ≡ true =
      (subst (All (λ x. p x ≡ true)) chosen (picks-All key_of le 1 p db.credentials)).0 in
    let stored : find (λ x. x.id == c.id) db.credentials ≡ some c =
      (subst (All (λ y. find (λ x. x.id == y.id) db.credentials ≡ some y)) chosen
        (picks-stored key_of le 1 p db.credentials u)).0 in
    let c_unset =
      find-all (λ x. x.is_available ≡ true → x.assigned_at ≡ none) (has_id c.id) db.credentials c
        stored unset in
    let imp =
      find-all (λ x. is_picked key_of cs x ≡ true → p x ≡ true) (has_id old.id) db.credentials old
        found (All-is_picked key_of le 1 p db.credentials u) in
    let other : is_picked key_of cs old ≡ false =
      false_of (is_picked key_of cs old) (λ m. ground (arith, imp m, gone)) in
    let (same_id, same_at, own) = take_for_instance-rest now i c pos in
    let fixed = λ (x : Credential). (take_for_instance-rest now i x pos).0 in
    let end : db' ≡ burn (some old) (put_rows db (is_picked key_of cs) f) =
      written ∙ ap (λ o. burn o (put_rows db (is_picked key_of cs) f)) first in
    let new_at : r.new_vpn.assigned_at ≡ none =
      ap (λ (x : Credential). x.assigned_at) new ∙ same_at ∙ c_unset (ground (arith, free)) in
    (
      λ e.
          let k : c.id ≡ old.id = sym (ap (λ (x : Credential). x.id) new ∙ same_id) ∙ e in
          let eq : some c ≡ some old =
            sym stored ∙ ap (λ j. find (has_id j) db.credentials) k ∙ found in
          let eq' : c ≡ old = cc eq in
          ground (arith, free, ap (λ (x : Credential). x.is_available) eq', gone),
      ap (λ d. find (has_id old.id) d.credentials) end
          ∙ burn-kept (put_rows db (is_picked key_of cs) f) old
              (kept (is_picked key_of cs) f db.credentials old fixed found other) gone,
      ap (is_of_instance i) new ∙ own,
      rw old_unset,
      rw new_at,
    )
  where
    false_of : (b : Bool) → (b ≡ true → ⊥) → b ≡ false
    false_of true h = absurd (h refl)
    false_of false h = refl
