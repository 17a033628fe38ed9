-- ===== src/Base/Picks.antt =====
-- Rows that are picked out of a table by their keys.
use Prim.Native.Nat.{ℕ, zero, suc, ◌+◌, min}
use mathlib.Core.Path.{◌≡◌, refl, sym, ap, subst, ◌∙◌}
use mathlib.Core.Logic.{inl, inr, ◌≢◌}
use mathlib.Core.Bool.{Bool, true, false}
use mathlib.Core.Option.{some}
use mathlib.Core.List.{List, [], ◌∷◌, map}
use native.Mathlib.Omega.{arith}
use cyberx_event_mgmt.Base.Tests.{◌==◌, ==→eq, Bool-cases, Option-cases, is_some}
use cyberx_event_mgmt.Base.Lists.{length, take, length-take, contains, Distinct, All, All-take}
use cyberx_event_mgmt.Base.Rows.{
  select, count, find, update, sort_by, insert_by, All-select, All-map, select-All, length-select,
}
use cyberx_event_mgmt.Base.Keys.{Unique, Unique-find, All-sort_by, length-sort_by}

module _ {ℓ} {A : Type ℓ} where
  -- An update of some rows of a test, which takes them out of it, lowers its count by theirs.
  pub count-update_sub :
      (r q : A → Bool) (f : A → A) (xs : List A)
      → All (λ x. r x ≡ true → q x ≡ true) xs
      → ((x : A) → q (f x) ≡ false)
      → count q (update r f xs) + count r xs ≡ count q xs
  unfolding count update
  count-update_sub r q f [] h k = omega arith
  count-update_sub r q f (x ∷ xs) (h, hs) k = ground (arith, h, k x, count-update_sub r q f xs hs k)

module _ {ℓ} {A : Type ℓ} (key : A → ℕ) where
  -- The row has the key of one of these.
  abbrev pub is_picked : List A → A → Bool
  is_picked ys x = contains (map key ys) (key x)

  Unique-insert_by :
      (le : A → A → Bool) (y : A) (xs : List A)
      → All (λ x. key y ≢ key x) xs
      → Unique key xs
      → Unique key (insert_by le y xs)
  unfolding insert_by
  Unique-insert_by le y [] h u = (tt, tt)
  Unique-insert_by le y (x ∷ xs) (h, hs) (d, u) = elim (Bool-cases (le y x)) [
    | inl e ↦ rw e ((h, hs), (d, u))
    | inr e ↦ rw e (inserted xs d, Unique-insert_by le y xs hs u)
  ]
    where
      inserted :
          (zs : List A) → All (λ z. key x ≢ key z) zs → All (λ z. key x ≢ key z) (insert_by le y zs)
      inserted [] b = ((λ e. h (sym e)), tt)
      inserted (z ∷ zs) (b, bs) = elim (Bool-cases (le y z)) [
        | inl e ↦ rw e ((λ e. h (sym e)), (b, bs))
        | inr e ↦ rw e (b, inserted zs bs)
      ]

  Unique-sort_by : (le : A → A → Bool) (xs : List A) → Unique key xs → Unique key (sort_by le xs)
  unfolding sort_by
  Unique-sort_by le [] u = tt
  Unique-sort_by le (x ∷ xs) (d, u) =
      Unique-insert_by le x (sort_by le xs) (All-sort_by (λ z. key x ≢ key z) le xs d)
        (Unique-sort_by le xs u)

  Unique-select : (p : A → Bool) (xs : List A) → Unique key xs → Unique key (select p xs)
  unfolding select
  Unique-select p [] u = tt
  Unique-select p (x ∷ xs) (d, u) = elim (Bool-cases (p x)) [
    | inl e ↦ rw e (All-select (λ z. key x ≢ key z) p xs d, Unique-select p xs u)
    | inr e ↦ rw e (Unique-select p xs u)
  ]

  Unique-take : (n : ℕ) (xs : List A) → Unique key xs → Unique key (take n xs)
  Unique-take zero xs u = tt
  Unique-take (suc n) [] u = tt
  Unique-take (suc n) (x ∷ xs) (d, u) = (All-take (λ z. key x ≢ key z) n xs d, Unique-take n xs u)

  count-other : (k : ℕ) (xs : List A) → All (λ x. k ≢ key x) xs → count (λ x. k == key x) xs ≡ 0
  unfolding count
  count-other k [] h = refl
  count-other k (x ∷ xs) (h, hs) = ground (arith, count-other k xs hs)

  -- With distinct keys a stored row is there once.
  count_own :
      (k : ℕ) (xs : List A) {y : A}
      → Unique key xs
      → find (λ x. key x == k) xs ≡ some y
      → count (λ x. k == key x) xs ≡ 1
  unfolding count find
  count_own k [] u f = cc
  count_own k (x ∷ xs) {y} (d, u) f = elim (Bool-cases (key x == k)) [
    | inl same ↦ ground (
      arith,
      count-other (key x) xs d,
      same,
      ap (λ j. count (λ z. j == key z) xs) (==→eq (key x) k same),
    )
    | inr other ↦ ground (arith, other, count_own k xs {y = y} u (rw other at f))
  ]

  contains-other : (k : ℕ) (ys : List A) → All (λ y. k ≢ key y) ys → contains (map key ys) k ≡ false
  unfolding contains
  contains-other k [] h = refl
  contains-other k (y ∷ ys) (h, hs) = ground (arith, contains-other k ys hs)

  count_cons :
      (k : ℕ) (ks : List ℕ) (xs : List A)
      → contains ks k ≡ false
      → count (λ x. contains (k ∷ ks) (key x)) xs
        ≡ count (λ x. k == key x) xs + count (λ x. contains ks (key x)) xs
  unfolding count contains
  count_cons k ks [] h = refl
  count_cons k ks (x ∷ xs) h = elim (Bool-cases (k == key x)) [
    | inl same ↦
        ground (arith, h, same, count_cons k ks xs h, ap (contains ks) (==→eq k (key x) same))
    | inr other ↦ ground (arith, other, count_cons k ks xs h)
  ]

  count_none : (xs : List A) → count (λ x. contains [] (key x)) xs ≡ 0
  unfolding count contains
  count_none [] = refl
  count_none (x ∷ xs) = ground (arith, count_none xs)

  -- Distinct keys of stored rows are the keys of as many rows.
  pub count-contains :
      (ks : List ℕ) (xs : List A)
      → Distinct ks
      → Unique key xs
      → All (λ k. is_some (find (λ x. key x == k) xs) ≡ true) ks
      → count (λ x. contains ks (key x)) xs ≡ length ks
  count-contains [] xs d u h = count_none xs
  count-contains (k ∷ ks) xs (d, ds) u (h, hs) = elim (Option-cases (find (λ x. key x == k) xs)) [
    | inl absent ↦ absurd (cc (rw absent at h))
    | inr (y, found) ↦
        omega (
          arith,
          count_cons k ks xs d,
          count_own k xs {y = y} u found,
          count-contains ks xs ds u hs,
        )
  ]

  -- Distinct stored rows pick out as many rows as they are.
  pub count-is_picked :
      (ys xs : List A)
      → Unique key ys
      → Unique key xs
      → All (λ y. find (λ x. key x == key y) xs ≡ some y) ys
      → count (is_picked ys) xs ≡ length ys
  count-is_picked [] xs u v f = count_none xs
  count-is_picked (y ∷ ys) xs (d, u) v (f, fs) = omega (
    arith,
    count_cons (key y) (map key ys) xs (contains-other (key y) ys d),
    count_own (key y) xs {y = y} v f,
    count-is_picked ys xs u v fs,
  )

  -- The first rows of a sorted query.
  abbrev pub picks : (A → A → Bool) → ℕ → (A → Bool) → List A → List A
  picks le n p xs = take n (sort_by le (select p xs))

  pub picks-Unique :
      (le : A → A → Bool) (n : ℕ) (p : A → Bool) (xs : List A)
      → Unique key xs
      → Unique key (picks le n p xs)
  picks-Unique le n p xs u =
      Unique-take n (sort_by le (select p xs))
        (Unique-sort_by le (select p xs) (Unique-select p xs u))

  -- What holds of stored rows holds of every row that they pick out.
  picked-one {κ} :
      (P : A → Type κ) (ys xs : List A) (x : A)
      → All (λ y. find (λ z. key z == key y) xs ≡ some y) ys
      → All P ys
      → find (λ z. key z == key x) xs ≡ some x
      → is_picked ys x ≡ true
      → P x
  unfolding contains
  picked-one P [] xs x f a e h = cc
  picked-one P (y ∷ ys) xs x (f, fs) (a, as') e h = elim (Bool-cases (key y == key x)) [
    | inl same ↦
        let moved : find (λ z. key z == key x) xs ≡ some y =
          ap (λ k. find (λ z. key z == k) xs) (sym (==→eq (key y) (key x) same)) ∙ f in
        let eq : y ≡ x = cc (moved, e) in subst P eq a
    | inr other ↦ picked-one P ys xs x fs as' e (ground (arith, h, other))
  ]

  pub picks-stored :
      (le : A → A → Bool) (n : ℕ) (p : A → Bool) (xs : List A)
      → Unique key xs
      → All (λ y. find (λ z. key z == key y) xs ≡ some y) (picks le n p xs)
  picks-stored le n p xs u =
      All-take (λ y. find (λ x. key x == key y) xs ≡ some y) n (sort_by le (select p xs))
        (All-sort_by (λ y. find (λ x. key x == key y) xs ≡ some y) le (select p xs)
          (All-select (λ y. find (λ x. key x == key y) xs ≡ some y) p xs (Unique-find key xs u)))

  pub count-picks :
      (le : A → A → Bool) (n : ℕ) (p : A → Bool) (xs : List A)
      → Unique key xs
      → count (is_picked (picks le n p xs)) xs ≡ length (picks le n p xs)
  count-picks le n p xs u =
      count-is_picked (picks le n p xs) xs (picks-Unique le n p xs u) u (picks-stored le n p xs u)

  pub picks-All :
      (le : A → A → Bool) (n : ℕ) (p : A → Bool) (xs : List A)
      → All (λ x. p x ≡ true) (picks le n p xs)
  picks-All le n p xs =
      All-take (λ x. p x ≡ true) n (sort_by le (select p xs))
        (All-sort_by (λ x. p x ≡ true) le (select p xs) (select-All p xs))

  pub All-is_picked :
      (le : A → A → Bool) (n : ℕ) (p : A → Bool) (xs : List A)
      → Unique key xs
      → All (λ x. is_picked (picks le n p xs) x ≡ true → p x ≡ true) xs
  All-is_picked le n p xs u =
      All-map (λ x. find (λ z. key z == key x) xs ≡ some x) _ xs
        (λ x e h.
          picked-one (λ y. p y ≡ true) (picks le n p xs) xs x (picks-stored le n p xs u)
            (picks-All le n p xs) e h)
        (Unique-find key xs u)

  pub length-picks :
      (le : A → A → Bool) (n : ℕ) (p : A → Bool) (xs : List A)
      → length (picks le n p xs) ≡ min n (count p xs)
  length-picks le n p xs = omega (
    arith,
    length-take n (sort_by le (select p xs)),
    length-sort_by le (select p xs),
    length-select p xs,
  )

  -- An update of the rows that are picked, which takes them out of a test that they meet, lowers its
  -- count by their number.
  pub pool_size :
      (le : A → A → Bool) (n : ℕ) (p q : A → Bool) (f : A → A) (xs : List A)
      → Unique key xs
      → ((x : A) → p x ≡ true → q x ≡ true)
      → ((x : A) → q (f x) ≡ false)
      → count q (update (is_picked (picks le n p xs)) f xs) + length (picks le n p xs) ≡ count q xs
  pool_size le n p q f xs u h k = omega (
    arith,
    count-picks le n p xs u,
    count-update_sub (is_picked (picks le n p xs)) q f xs
        (All-map (λ x. is_picked (picks le n p xs) x ≡ true → p x ≡ true) _ xs (λ x m e. h x (m e))
          (All-is_picked le n p xs u))
        k,
  )
