-- ===== src/Auth/Permissions/Resolution.antt =====
-- Which permissions a user holds.
use cyberx_event_mgmt.Base.{
  String, none, some, Bool, true, false, not, ◌&&◌, ◌||◌, List, [], ◌∷◌, ◌++◌, ◌≡◌, refl, arith, ap,
  ◌∙◌, select, str_eq, eq_iff, inl, inr, Bool-cases, sym,
}
use cyberx_event_mgmt.Auth.Data.{Role, User}
use cyberx_event_mgmt.Auth.Permissions.{
  contains_text, all_permissions, sponsor_permissions, invitee_permissions, role_permissions,
  resolve_permissions, has_all, get_permissions_for_role_string, get_effective_permissions,
  has_permission,
}

contains_text-append :
    (xs ys : List String) (p : String)
    → contains_text (xs ++ ys) p ≡ contains_text xs p || contains_text ys p
unfolding contains_text
contains_text-append [] ys p = refl
contains_text-append (x ∷ xs) ys p = ground (arith, contains_text-append xs ys p)

contains_text-select :
    (t : String → Bool) (xs : List String) (p : String)
    → contains_text (select t xs) p ≡ contains_text xs p && t p
unfolding contains_text select
contains_text-select t [] p = refl
contains_text-select t (x ∷ xs) p = elim (Bool-cases (str_eq x p)) [
  | inl same ↦
      let e : x ≡ p = (eq_iff x p).0 same in
      ground (arith, contains_text-select t xs p, e, ap t e, same)
  | inr other ↦ ground (arith, contains_text-select t xs p, other)
]

-- A permission is in the resolved set exactly when it is in the base or is added, and is not
-- removed: a removal wins over an addition.
pub resolve_permissions_iff :
    (base added removed : List String) (p : String)
    → contains_text (resolve_permissions base added removed) p
      ≡ (contains_text base p || contains_text added p) && not (contains_text removed p)
unfolding resolve_permissions
resolve_permissions_iff base added removed p =
    contains_text-select (λ q. not (contains_text removed q)) (base ++ added) p
    ∙ ap (λ b. b && not (contains_text removed p)) (contains_text-append base added p)

pub has_all-contains_text :
    (effective perms : List String) (p : String)
    → has_all effective perms ≡ true
    → contains_text perms p ≡ true
    → contains_text effective p ≡ true
unfolding has_all contains_text
has_all-contains_text effective [] p h c = cc
has_all-contains_text effective (q ∷ perms) p h c = elim (Bool-cases (str_eq q p)) [
  | inl same ↦
      let e : q ≡ p = (eq_iff q p).0 same in ground (arith, h, ap (contains_text effective) e)
  | inr other ↦
      has_all-contains_text effective perms p (ground (arith, h)) (ground (arith, c, other))
]

has_all_trans :
    (more fewer perms : List String)
    → has_all more fewer ≡ true
    → has_all fewer perms ≡ true
    → has_all more perms ≡ true
unfolding has_all
has_all_trans more fewer [] k h = refl
has_all_trans more fewer (p ∷ perms) k h =
    ground (arith, h, has_all-contains_text more fewer p k, has_all_trans more fewer perms k)

sponsor-invitee : has_all sponsor_permissions invitee_permissions ≡ true
unfolding has_all contains_text
sponsor-invitee = refl

admin-sponsor : has_all all_permissions sponsor_permissions ≡ true
unfolding has_all contains_text
admin-sponsor = refl

module _ (lower : String → String) where
  -- A user with a dynamic role holds a permission exactly when the role or an override grants it
  -- and no override removes it.
  pub has_permission_override :
      (u : User) (r : Role) (p : String)
      → u.role_obj ≡ some r
      → has_permission lower u (p ∷ [])
        ≡ (contains_text r.permissions p || contains_text u.permission_overrides.added p)
          && not (contains_text u.permission_overrides.removed p)
  unfolding has_permission get_effective_permissions has_all resolve_permissions
  has_permission_override u r p e =
      let resolved =
        resolve_permissions_iff r.permissions u.permission_overrides.added
          u.permission_overrides.removed p in
      ground (arith, e, resolved)

  -- `u` has no dynamic role, and its role string is `role` but for the case.
  abbrev pub HasLegacyRole : User → String → Type 0
  HasLegacyRole u role = (u.role_obj ≡ none) × (str_eq u.role "" ≡ false) × (lower u.role ≡ role)

  abbrev pub AgreesWithRole : User → String → List String → Type 0
  AgreesWithRole u role perms = has_permission lower u perms ≡ has_all (role_permissions role) perms

  pub has_permission_legacy :
      (u : User) (role : String) (perms : List String)
      → HasLegacyRole u role
      → AgreesWithRole u role perms
  unfolding has_permission get_effective_permissions get_permissions_for_role_string
  has_permission_legacy u role perms (no_role, named, e) = rw (no_role, named, e) refl

  -- Without dynamic roles, what an invitee may do, a sponsor may do, and what a sponsor may do, an
  -- admin may do, whatever their overrides say.
  pub has_permission_nested :
      (invitee sponsor admin : User) (perms : List String)
      → HasLegacyRole invitee "invitee"
      → HasLegacyRole sponsor "sponsor"
      → HasLegacyRole admin "admin"
      → (has_permission lower invitee perms ≡ true → has_permission lower sponsor perms ≡ true)
        × (has_permission lower sponsor perms ≡ true → has_permission lower admin perms ≡ true)
  unfolding role_permissions
  has_permission_nested invitee sponsor admin perms i s a =
      let of_invitee = has_permission_legacy invitee "invitee" perms i in
      let of_sponsor = has_permission_legacy sponsor "sponsor" perms s in
      let of_admin = has_permission_legacy admin "admin" perms a in
      (
        λ h.
            of_sponsor
            ∙ has_all_trans sponsor_permissions invitee_permissions perms sponsor-invitee
                (sym of_invitee ∙ h),
        λ h.
            of_admin
            ∙ has_all_trans all_permissions sponsor_permissions perms admin-sponsor
                (sym of_sponsor ∙ h),
      )
