-- ===== src/Base/Keys.antt =====
-- Tables with a key, and what an update, a search and a sort keep of a table's rows.
use Prim.Native.Nat.{ℕ, suc, ◌≤◌, ◌<◌}
use mathlib.Core.Path.{◌≡◌, refl, ap, subst, ◌∙◌}
use mathlib.Core.Logic.{inl, inr, ◌≢◌}
use mathlib.Core.Bool.{Bool, true, false}
use mathlib.Core.Option.{none, some}
use mathlib.Core.List.{List, [], ◌∷◌, ◌++◌}
use native.Mathlib.Omega.{arith}
use cyberx_event_mgmt.Base.Tests.{◌==◌, Bool-cases, if◌then◌else◌}
use cyberx_event_mgmt.Base.Lists.{length, All, All-append}
use cyberx_event_mgmt.Base.Rows.{
  find, select, update, delete, sort_by, insert_by, All-update, All-delete, All-map,
}

-- Rows with distinct keys.
module _ {ℓ} {A : Type ℓ} (key : A → ℕ) where
  abbrev pub HasKey : ℕ → A → Type 0
  HasKey k x = key x ≡ k

  abbrev pub Unique : List A → Type 0
  Unique [] = Unit
  Unique (x ∷ xs) = All (λ y. key x ≢ key y) xs × Unique xs

  abbrev pub Below : ℕ → List A → Type 0
  Below n xs = All (λ x. key x < n) xs

  pub Unique-append :
      (n : ℕ) (xs : List A) (x : A) → Unique xs → Below n xs → n ≤ key x → Unique (xs ++ x ∷ [])
  Unique-append n [] x u b h = (tt, tt)
  Unique-append n (y ∷ xs) x (d, u) (l, b) h = (
    All-append (λ z. key y ≢ key z) xs (x ∷ []) d ((omega arith), tt),
    Unique-append n xs x u b h,
  )

  Unique-cons_update :
      (k : ℕ) (p : A → Bool) (f : A → A) (xs : List A)
      → ((x : A) → key (f x) ≡ key x)
      → All (λ y. k ≢ key y) xs
      → All (λ y. k ≢ key y) (update p f xs)
  Unique-cons_update k p f xs h a = All-update (λ y. k ≢ key y) p f xs (λ x _ d. rw (h x) d) a

  pub Unique-update :
      (p : A → Bool) (f : A → A) (xs : List A)
      → ((x : A) → key (f x) ≡ key x)
      → Unique xs
      → Unique (update p f xs)
  unfolding update
  Unique-update p f [] h u = tt
  Unique-update p f (x ∷ xs) h (d, u) = elim (Bool-cases (p x)) [
    | inl e ↦ rw (e, h x) (Unique-cons_update (key x) p f xs h d, Unique-update p f xs h u)
    | inr e ↦ rw e (Unique-cons_update (key x) p f xs h d, Unique-update p f xs h u)
  ]

  -- A row is found by its own key.
  pub Unique-find : (xs : List A) → Unique xs → All (λ x. find (λ y. key y == key x) xs ≡ some x) xs
  unfolding find
  Unique-find [] u = tt
  Unique-find (x ∷ xs) (d, u) = (ground arith, later xs d (Unique-find xs u))
    where
      later :
          (ys : List A)
          → All (λ y. key x ≢ key y) ys
          → All (λ y. find (λ z. key z == key y) xs ≡ some y) ys
          → All
              (λ y. (if key x == key y then some x else find (λ z. key z == key y) xs) ≡ some y)
              ys
      later [] a b = tt
      later (y ∷ ys) (a, as') (b, bs) = (ground arith, later ys as' bs)

module _ {ℓ} {A : Type ℓ} where
  pub All-zip {κ μ} :
      (P : A → Type κ) (Q : A → Type μ) (xs : List A)
      → All P xs
      → All Q xs
      → All (λ x. P x × Q x) xs
  All-zip P Q [] a b = tt
  All-zip P Q (x ∷ xs) (a, as') (b, bs) = ((a, b), All-zip P Q xs as' bs)

  -- What an update makes of rows, updated or not.
  pub All-update_to {κ μ} :
      (P : A → Type κ) (Q : A → Type μ) (p : A → Bool) (f : A → A) (xs : List A)
      → ((x : A) → p x ≡ true → P x → Q (f x))
      → ((x : A) → p x ≡ false → P x → Q x)
      → All P xs
      → All Q (update p f xs)
  unfolding update
  All-update_to P Q p f [] h k a = tt
  All-update_to P Q p f (x ∷ xs) h k (a, as') = elim (Bool-cases (p x)) [
    | inl e ↦ rw e (h x e a, All-update_to P Q p f xs h k as')
    | inr e ↦ rw e (k x e a, All-update_to P Q p f xs h k as')
  ]

  pub All-delete_to {κ μ} :
      (P : A → Type κ) (Q : A → Type μ) (p : A → Bool) (xs : List A)
      → ((x : A) → p x ≡ false → P x → Q x)
      → All P xs
      → All Q (delete p xs)
  unfolding delete
  All-delete_to P Q p [] k a = tt
  All-delete_to P Q p (x ∷ xs) k (a, as') = elim (Bool-cases (p x)) [
    | inl e ↦ rw e (All-delete_to P Q p xs k as')
    | inr e ↦ rw e (k x e a, All-delete_to P Q p xs k as')
  ]

  pub find-none : (p : A → Bool) (xs : List A) → find p xs ≡ none → All (λ x. p x ≡ false) xs
  unfolding find
  find-none p [] h = tt
  find-none p (x ∷ xs) h = (ground arith, find-none p xs (ground arith))

  pub All-sort_by {κ} :
      (P : A → Type κ) (le : A → A → Bool) (xs : List A) → All P xs → All P (sort_by le xs)
  unfolding sort_by
  All-sort_by P le [] a = tt
  All-sort_by P le (x ∷ xs) (a, as') = inserted x (sort_by le xs) a (All-sort_by P le xs as')
    where
      inserted : (y : A) (ys : List A) → P y → All P ys → All P (insert_by le y ys)
      inserted y [] b bs = (b, tt)
      inserted y (z ∷ zs) b (c, cs) = elim (Bool-cases (le y z)) [
        | inl e ↦ rw e (b, (c, cs))
        | inr e ↦ rw e (c, inserted y zs b cs)
      ]

  pub length-sort_by : (le : A → A → Bool) (xs : List A) → length (sort_by le xs) ≡ length xs
  unfolding sort_by
  length-sort_by le [] = refl
  length-sort_by le (x ∷ xs) = inserted x (sort_by le xs) ∙ ap suc (length-sort_by le xs)
    where
      inserted : (y : A) (ys : List A) → length (insert_by le y ys) ≡ suc (length ys)
      inserted y [] = refl
      inserted y (z ∷ zs) = ground (arith, inserted y zs)

module _ {ℓ} {A : Type ℓ} where
  -- What holds of every row holds of the row that is found.
  pub find-all {κ} :
      (P : A → Type κ) (p : A → Bool) (xs : List A) (x : A) → find p xs ≡ some x → All P xs → P x
  unfolding find
  find-all P p [] x h a = cc
  find-all P p (y ∷ xs) x h (a, as') = elim (Bool-cases (p y)) [
    | inl e ↦ let found : some y ≡ some x = rw e at h in subst P (cc found) a
    | inr e ↦ find-all P p xs x (rw e at h) as'
  ]

module _ {ℓ} {A : Type ℓ} where
  pub delete-cong :
      (p q : A → Bool) (xs : List A) → All (λ x. p x ≡ q x) xs → delete p xs ≡ delete q xs
  unfolding delete
  delete-cong p q [] h = refl
  delete-cong p q (x ∷ xs) (h, hs) = ground (arith, h, delete-cong p q xs hs)

  pub update-cong :
      (p q : A → Bool) (f g : A → A) (xs : List A)
      → All (λ x. p x ≡ q x) xs
      → ((x : A) → f x ≡ g x)
      → update p f xs ≡ update q g xs
  unfolding update
  update-cong p q f g [] h e = refl
  update-cong p q f g (x ∷ xs) (h, hs) e = ground (arith, h, e x, update-cong p q f g xs hs e)

  pub select-cong :
      (p q : A → Bool) (xs : List A) → All (λ x. p x ≡ q x) xs → select p xs ≡ select q xs
  unfolding select
  select-cong p q [] h = refl
  select-cong p q (x ∷ xs) (h, hs) = ground (arith, h, select-cong p q xs hs)

  pub select-none : (p : A → Bool) (xs : List A) → All (λ x. p x ≡ false) xs → select p xs ≡ []
  unfolding select
  select-none p [] h = refl
  select-none p (x ∷ xs) (h, hs) = rw h (select-none p xs hs)

module _ {ℓ} {A : Type ℓ} (key : A → ℕ) where
  pub Unique-delete : (p : A → Bool) (xs : List A) → Unique key xs → Unique key (delete p xs)
  unfolding delete
  Unique-delete p [] u = tt
  Unique-delete p (x ∷ xs) (d, u) = elim (Bool-cases (p x)) [
    | inl e ↦ rw e (Unique-delete p xs u)
    | inr e ↦ rw e (All-delete (λ y. key x ≢ key y) p xs d, Unique-delete p xs u)
  ]

  -- A row is selected by its own key, alone.
  pub select-key :
      (k : ℕ) (xs : List A) (x : A)
      → Unique key xs
      → find (λ y. key y == k) xs ≡ some x
      → select (λ y. key y == k) xs ≡ x ∷ []
  unfolding find select
  select-key k [] x u h = absurd (cc h)
  select-key k (y ∷ ys) x (d, u) h = elim (Bool-cases (key y == k)) [
    | inl e ↦
        let same : y ≡ x = cc (rw e at h) in
        let none_more =
          select-none (λ z. key z == k) ys
            (All-map (λ z. key y ≢ key z) (λ z. (key z == k) ≡ false) ys
              (λ z apart. ground (arith, apart, e)) d) in
        rw (e, none_more) (ap (λ z. z ∷ []) same)
    | inr e ↦ rw e (select-key k ys x u (rw e at h))
  ]
