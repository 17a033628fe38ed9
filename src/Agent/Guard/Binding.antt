-- ===== src/Agent/Guard/Binding.antt =====
-- An agent's token is bound to the address of its first request.
use cyberx_event_mgmt.Base.{
  ℕ, String, Option, none, some, Bool, List, [], ◌∷◌, ◌≡◌, ◌≢◌, refl, sym, ap, ◌∙◌, arith, ◌⊎◌, inl,
  inr, Option-cases, Bool-cases, ==→eq, str_eq, eq_iff, All, All-map, All-update_to, Unique, find,
  find-all, select, Result, ok, raised, Error, scalar_one_or_none,
}
use cyberx_event_mgmt.Agent.Data.{Instance, Db, has_instance_id}
use cyberx_event_mgmt.Agent.Guard.{
  has_agent_token, bind_ip, bind, agent_found, by_parts, get_current_agent_instance,
}

-- A refused request, or one that gets to the binding with the instance of a token.
abbrev Outcome : Db → String → Db × Result Instance → Type 0
Outcome db client_ip r =
    ((e : Error) × (r ≡ (db, raised e)))
    ⊎ ((h : String) × (x : Instance) × (find (has_agent_token h) db.instances ≡ some x)
        × (r ≡ bind db client_ip x x.agent_registered_ip))

select_one :
    (p : Instance → Bool) (xs : List Instance) (x : Instance)
    → scalar_one_or_none (select p xs) ≡ ok (some x)
    → find p xs ≡ some x
unfolding select find scalar_one_or_none
select_one p [] x e = cc
select_one p (y ∷ xs) x e = elim (Bool-cases (p y)) [
  | inr other ↦ ground (arith, other, select_one p xs x (ground (arith, other, e)))
  | inl here ↦ elim (rest (select p xs)) [
    | inl last ↦ ground (arith, here, last, e)
    | inr (z, zs, more) ↦ absurd (ground (arith, here, more, e))
  ]
]
  where
    rest :
        (ys : List Instance) → (ys ≡ []) ⊎ ((z : Instance) × (zs : List Instance) × (ys ≡ z ∷ zs))
    rest [] = inl refl
    rest (z ∷ zs) = inr (z, zs, refl)

agent_found-Outcome :
    (db : Db) (client_ip h : String) (r : Result (Option Instance))
    → scalar_one_or_none (select (has_agent_token h) db.instances) ≡ r
    → Outcome db client_ip (agent_found db client_ip r)
unfolding agent_found
agent_found-Outcome db client_ip h (raised e) s = inl (e, refl)
agent_found-Outcome db client_ip h (ok none) s = inl (_, refl)
agent_found-Outcome db client_ip h (ok (some x)) s =
    inr (h, x, select_one (has_agent_token h) db.instances x s, refl)

-- The rows with this id are bound to this address.
abbrev IsBound : ℕ → String → Instance → Type 0
IsBound i ip y = y.id ≡ i → y.agent_registered_ip ≡ some ip

abbrev UniqueIds : List Instance → Type 0
UniqueIds xs = Unique (λ (x : Instance). x.id) xs

-- The row that is found is the only one with its id.
find-IsBound :
    (p : Instance → Bool) (xs : List Instance) (x : Instance) (ip : String)
    → UniqueIds xs
    → find p xs ≡ some x
    → x.agent_registered_ip ≡ some ip
    → All (IsBound x.id ip) xs
unfolding find
find-IsBound p [] x ip u f b = tt
find-IsBound p (y ∷ xs) x ip (d, u) f b = elim (Bool-cases (p y)) [
  | inl here ↦
      let same : some y ≡ some x = rw here at f in
      let eq : y ≡ x = cc same in
      (
        λ _. cc (eq, b),
        All-map (λ z. y.id ≢ z.id) (IsBound x.id ip) xs (λ z other e. absurd (other (cc (eq, e))))
            d,
      )
  | inr later ↦
      let f' : find p xs ≡ some x = rw later at f in
      (λ e. absurd (find-all (λ z. y.id ≢ z.id) p xs x f' d e), find-IsBound p xs x ip u f' b)
]

module _ (hash lower : String → String) (split : String → List String) where
  by_parts-Outcome :
      (db : Db) (client_ip : String) (parts : List String)
      → Outcome db client_ip (by_parts hash lower split db client_ip parts)
  unfolding by_parts
  by_parts-Outcome db client_ip [] = inl (_, refl)
  by_parts-Outcome db client_ip (scheme ∷ []) = inl (_, refl)
  by_parts-Outcome db client_ip (scheme ∷ raw_token ∷ []) =
      elim (Bool-cases (str_eq (lower scheme) "bearer")) [
        | inl bearer ↦ rw bearer (agent_found-Outcome db client_ip (hash raw_token) _ refl)
        | inr other ↦ rw other (inl (_, refl))
      ]
  by_parts-Outcome db client_ip (scheme ∷ raw_token ∷ extra ∷ more) = inl (_, refl)

  guard-Outcome :
      (db : Db) (client_ip authorization : String)
      → Outcome db client_ip
          (get_current_agent_instance hash lower split db client_ip authorization)
  unfolding get_current_agent_instance
  guard-Outcome db client_ip authorization = elim (Bool-cases (str_eq authorization "")) [
    | inl absent ↦ rw absent (inl (_, refl))
    | inr present ↦ rw present (by_parts-Outcome db client_ip (split authorization))
  ]

  -- A request keeps an address that is bound.
  guard-IsBound :
      (db : Db) (client_ip authorization : String) (i : ℕ) (ip : String)
      → All (IsBound i ip) db.instances
      → All
          (IsBound i ip)
          (get_current_agent_instance hash lower split db client_ip authorization).0.instances
  unfolding bind
  guard-IsBound db client_ip authorization i ip b =
      elim (guard-Outcome db client_ip authorization) [
        | inl (e, refused) ↦ rw refused b
        | inr (h, x, found, bound) ↦
            let own = find-all (IsBound i ip) (has_agent_token h) db.instances x found b in
            elim (Option-cases x.agent_registered_ip) [
              | inl free ↦
                  rw (bound, free)
                    (All-update_to (IsBound i ip) (IsBound i ip) (has_instance_id x.id)
                      (bind_ip client_ip) db.instances
                      (λ y at k e. absurd (cc (free, own (sym (==→eq y.id x.id at) ∙ e))))
                      (λ y other k. k) b)
              | inr (old, registered) ↦ elim (Bool-cases (str_eq old client_ip)) [
                | inl same ↦ rw (bound, registered, same) b
                | inr differs ↦ rw (bound, registered, differs) b
              ]
            ]
      ]

  -- After a request that passes, its instance is bound to the address it came from.
  guard-binds :
      (db : Db) (client_ip authorization : String) (x : Instance)
      → UniqueIds db.instances
      → (get_current_agent_instance hash lower split db client_ip authorization).1 ≡ ok x
      → All
          (IsBound x.id client_ip)
          (get_current_agent_instance hash lower split db client_ip authorization).0.instances
  unfolding bind
  guard-binds db client_ip authorization x u passed =
      elim (guard-Outcome db client_ip authorization) [
        | inl (e, refused) ↦ absurd (ground (arith, passed, refused))
        | inr (h, y, found, bound) ↦ elim (Option-cases y.agent_registered_ip) [
          | inl free ↦
              let eq : y.id ≡ x.id = ground (arith, passed, bound, free) in
              rw (bound, free)
                (All-update_to (λ _. Unit {0}) (IsBound x.id client_ip) (has_instance_id y.id)
                  (bind_ip client_ip) db.instances (λ z at k e. refl)
                  (λ z other k e. absurd (ground (arith, other, e, eq))) (everywhere db.instances))
          | inr (old, registered) ↦ elim (Bool-cases (str_eq old client_ip)) [
            | inl same ↦
                let eq : y ≡ x = ground (arith, passed, bound, registered, same) in
                let ip : x.agent_registered_ip ≡ some client_ip =
                  ap (λ z. z.agent_registered_ip) (sym eq)
                  ∙ registered
                  ∙ ap some ((eq_iff old client_ip).0 same) in
                rw (bound, registered, same)
                  (find-IsBound (has_agent_token h) db.instances x client_ip u (found ∙ ap some eq)
                    ip)
            | inr differs ↦ absurd (ground (arith, passed, bound, registered, differs))
          ]
        ]
      ]
    where
      everywhere : (xs : List Instance) → All (λ _. Unit {0}) xs
      everywhere [] = tt
      everywhere (z ∷ zs) = (tt, everywhere zs)

  -- A request that passes as a bound instance comes from the address.
  guard-agrees :
      (db : Db) (client_ip authorization : String) (x : Instance) (ip : String)
      → All (IsBound x.id ip) db.instances
      → (get_current_agent_instance hash lower split db client_ip authorization).1 ≡ ok x
      → ip ≡ client_ip
  unfolding bind
  guard-agrees db client_ip authorization x ip b passed =
      elim (guard-Outcome db client_ip authorization) [
        | inl (e, refused) ↦ absurd (ground (arith, passed, refused))
        | inr (h, y, found, bound) ↦
            let own = find-all (IsBound x.id ip) (has_agent_token h) db.instances y found b in
            elim (Option-cases y.agent_registered_ip) [
              | inl free ↦
                  let eq : y.id ≡ x.id = ground (arith, passed, bound, free) in
                  absurd (cc (free, own eq))
              | inr (old, registered) ↦ elim (Bool-cases (str_eq old client_ip)) [
                | inl same ↦
                    let eq : y ≡ x = ground (arith, passed, bound, registered, same) in
                    let at : old ≡ client_ip = (eq_iff old client_ip).0 same in
                    let given = own (ap (λ z. z.id) eq) in cc (given, registered, at)
                | inr differs ↦ absurd (ground (arith, passed, bound, registered, differs))
              ]
            ]
      ]

  -- The requests of agents, each with its address and its header.
  unfoldable pub run : Db → List (String × String) → Db
  run db [] = db
  run db ((client_ip, authorization) ∷ cs) =
      run (get_current_agent_instance hash lower split db client_ip authorization).0 cs

  run-IsBound :
      (db : Db) (cs : List (String × String)) (i : ℕ) (ip : String)
      → All (IsBound i ip) db.instances
      → All (IsBound i ip) (run db cs).instances
  unfolding run
  run-IsBound db [] i ip b = b
  run-IsBound db ((client_ip, authorization) ∷ cs) i ip b =
      run-IsBound (get_current_agent_instance hash lower split db client_ip authorization).0 cs i ip
        (guard-IsBound db client_ip authorization i ip b)

  -- Once a request passed as an instance, a later one that passes as that instance comes from the
  -- same address, whatever requests of agents come between, in a table with distinct ids.
  pub get_current_agent_instance_bound :
      (db : Db) (client_ip other_ip authorization later : String) (x y : Instance)
      (cs : List (String × String))
      → UniqueIds db.instances
      → (get_current_agent_instance hash lower split db client_ip authorization).1 ≡ ok x
      → (get_current_agent_instance hash lower split
          (run (get_current_agent_instance hash lower split db client_ip authorization).0 cs)
          other_ip
          later).1
        ≡ ok y
      → y.id ≡ x.id
      → client_ip ≡ other_ip
  get_current_agent_instance_bound db client_ip other_ip authorization later x y cs u first second
        same =
      let mid = (get_current_agent_instance hash lower split db client_ip authorization).0 in
      let bound =
        run-IsBound mid cs x.id client_ip (guard-binds db client_ip authorization x u first) in
      guard-agrees (run mid cs) other_ip later y client_ip
        (All-map (IsBound x.id client_ip) (IsBound y.id client_ip) (run mid cs).instances
          (λ z b e. b (e ∙ same)) bound)
        second
