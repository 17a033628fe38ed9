-- ===== src/Participant/Listing/Filtered.antt =====
-- The filter by VPN.
use cyberx_event_mgmt.Base.{
  ℕ, String, Option, some, Bool, true, false, not, List, [], ◌∷◌, ◌≡◌, refl, ap, ◌∙◌, arith, inl,
  inr, Bool-cases, if◌then◌else◌, is_some, ltb, find, select, count, length, length-select, Result,
  ok, raised, multiple_results_found, scalar_one_or_none,
}
use cyberx_event_mgmt.Vpn.Data.{Credential}
use cyberx_event_mgmt.Participant.Data.{User, Db, Env}
use cyberx_event_mgmt.Participant.Delete.{is_of_credential}
use cyberx_event_mgmt.Participant.Listing.{
  Filters, is_listed, page_of, kept, filter_vpn, with_total, by_vpn, list_participants,
}

abbrev pub vpn_count : Db → User → ℕ
vpn_count db u = count (is_of_credential u.id) db.credentials

abbrev pub has_several : Db → User → Bool
has_several db u = ltb 1 (vpn_count db u)

abbrev pub has_any : Db → User → Bool
has_any db u = ltb 0 (vpn_count db u)

-- Those who have a VPN, or those who have none.
abbrev pub by_any : Db → Bool → User → Bool
by_any db has_vpn u = if has_vpn then has_any db u else not (has_any db u)

-- The result of the filter on a page.
abbrev pub filtered : Db → Bool → List User → Result (List User)
filtered db has_vpn us =
    if is_some (find (has_several db) us)
    then raised multiple_results_found
    else ok (select (by_any db has_vpn) us)

kept-rows :
    (db : Db) (b : Bool) (u : User) (us : List User) (rows : List Credential)
    → length rows ≡ vpn_count db u
    → kept b u (scalar_one_or_none rows) (filtered db b us) ≡ filtered db b (u ∷ us)
unfolding kept scalar_one_or_none find select
kept-rows db b u us [] n =
    let any : has_any db u ≡ false = ground (arith, n) in
    let several : has_several db u ≡ false = ground (arith, n) in
    elim (Bool-cases (is_some (find (has_several db) us))) [
      | inl e ↦ rw (e, several, e) refl
      | inr e ↦ rw (e, several, any, e) refl
    ]
kept-rows db b u us (c ∷ []) n =
    let any : has_any db u ≡ true = ground (arith, n) in
    let several : has_several db u ≡ false = ground (arith, n) in
    elim (Bool-cases (is_some (find (has_several db) us))) [
      | inl e ↦ rw (e, several, e) refl
      | inr e ↦ rw (e, several, any, e) refl
    ]
kept-rows db b u us (c ∷ d ∷ rows) n =
    let several : has_several db u ≡ true = ground (arith, n) in rw several refl

filter_vpn-filtered : (db : Db) (b : Bool) (us : List User) → filter_vpn db b us ≡ filtered db b us
unfolding filter_vpn find select
filter_vpn-filtered db b [] = refl
filter_vpn-filtered db b (u ∷ us) =
    ap (kept b u (scalar_one_or_none (select (is_of_credential u.id) db.credentials)))
      (filter_vpn-filtered db b us)
    ∙ kept-rows db b u us (select (is_of_credential u.id) db.credentials)
        (length-select (is_of_credential u.id) db.credentials)

module _ (ilike : String → String → Bool) (le : Filters → User → User → Bool)
    (role_id_of : User → Option ℕ) where
  -- A list with the filter by VPN gives those rows of the page whose users have a VPN, or have none, as
  -- long as no user of the page has two; when one has, the call raises and lists nobody. The total is
  -- that of the other filters.
  pub list_participants_filtered :
      (env : Env) (db : Db) (f : Filters) (has_vpn : Bool)
      → f.has_vpn ≡ some has_vpn
      → let page = page_of ilike le role_id_of env db f in
        list_participants ilike le role_id_of env db f ≡ (
          if is_some (find (has_several db) page)
          then raised multiple_results_found
          else ok (
            select (by_any db has_vpn) page,
            count (is_listed ilike le role_id_of env db f) db.users,
          ))
  unfolding list_participants by_vpn with_total
  list_participants_filtered env db f b wanted =
      let page = page_of ilike le role_id_of env db f in
      let total = count (is_listed ilike le role_id_of env db f) db.users in
      ap (λ o. with_total total (by_vpn db o page)) wanted
      ∙ ap (with_total total) (filter_vpn-filtered db b page)
      ∙ elim (Bool-cases (is_some (find (has_several db) page))) [
        | inl e ↦ rw e refl
        | inr e ↦ rw e refl
      ]
