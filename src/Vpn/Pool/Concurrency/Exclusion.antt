-- ===== src/Vpn/Pool/Concurrency/Exclusion.antt =====
-- No row is held by two transactions, and a row that is held is free.
use cyberx_event_mgmt.Base.{
  ℕ, String, Bool, true, false, not, ◌&&◌, ◌||◌, List, [], ◌∷◌, ◌++◌, map, ◌≡◌, refl, ap, arith,
  subst, inl, inr, Bool-cases, ◌==◌, ==→eq, contains, All, All-map, update, All-update, picks-All,
  leb, Unique, Unique-update, picks, is_picked, All-is_picked,
}
use cyberx_event_mgmt.Vpn.Data.{Credential, key_of}
use cyberx_event_mgmt.Vpn.Pool.{is_free}
use cyberx_event_mgmt.Vpn.Pool.Concurrency.{
  Claim, System, is_locked, Takes, Step, claims, commits, rolls_back, Reach, here, next,
}

-- The rows of a claim are free in the table.
abbrev pub HoldsFree : List Credential → Claim → Type 0
HoldsFree table c = All (λ r. contains c.rows r.id ≡ true → is_free c.kind r ≡ true) table

-- No row is held by two of the claims.
abbrev pub Disjoint : List Claim → Type 0
Disjoint [] = Unit
Disjoint (c ∷ cs) = ((i : ℕ) → contains c.rows i ≡ true → is_locked cs i ≡ false) × Disjoint cs

pub record IsExclusive (s : System) : Type 0 where
  pub unique : Unique key_of s.table
  pub free : All (HoldsFree s.table) s.claims
  pub disjoint : Disjoint s.claims
  pub changes : All (λ c. Takes c.change) s.claims

-- A claim in the middle of a list: what holds of the others.
pub All-without {ℓ} :
    (P : Claim → Type ℓ) (before : List Claim) (c : Claim) (after : List Claim)
    → All P (before ++ c ∷ after)
    → P c × All P (before ++ after)
All-without P [] c after (p, ps) = (p, ps)
All-without P (b ∷ before) c after (p, ps) =
    let (own, rest) = All-without P before c after ps in (own, (p, rest))

is_locked-without :
    (before : List Claim) (c : Claim) (after : List Claim) (i : ℕ)
    → is_locked (before ++ c ∷ after) i ≡ contains c.rows i || is_locked (before ++ after) i
unfolding is_locked
is_locked-without [] c after i = refl
is_locked-without (b ∷ before) c after i = ground (arith, is_locked-without before c after i)

Disjoint-without :
    (before : List Claim) (c : Claim) (after : List Claim)
    → Disjoint (before ++ c ∷ after)
    → ((i : ℕ) → contains c.rows i ≡ true → is_locked (before ++ after) i ≡ false)
      × Disjoint (before ++ after)
unfolding is_locked
Disjoint-without [] c after (d, ds) = (d, ds)
Disjoint-without (b ∷ before) c after (d, ds) =
    let (own, rest) = Disjoint-without before c after ds in
    (
      λ i h. ground (arith, h, own i, d i, is_locked-without before c after i),
      (λ i h. ground (arith, d i h, is_locked-without before c after i), rest),
    )

-- A claim that shares no row with those that are written keeps its rows free.
write-HoldsFree :
    (table : List Credential) (c : Claim) (ds : List Claim)
    → Takes c.change
    → ((i : ℕ) → contains c.rows i ≡ true → is_locked ds i ≡ false)
    → All (HoldsFree table) ds
    → All (HoldsFree (update (λ r. contains c.rows r.id) c.change table)) ds
unfolding is_locked
write-HoldsFree table c [] t apart h = tt
write-HoldsFree table c (d ∷ ds) t apart (h, hs) = (
  All-update (λ r. contains d.rows r.id ≡ true → is_free d.kind r ≡ true)
      (λ r. contains c.rows r.id) c.change table
      (λ r mine k e. absurd (ground (arith, apart r.id mine, e, ap (contains d.rows) (t.keeps r))))
      h,
  write-HoldsFree table c ds t (λ i mine. ground (arith, apart i mine)) hs,
)

-- What was not locked when it was chosen.
chosen_apart :
    (held : List Claim) (kind : String) (cs : List Credential)
    → All (λ c. is_free kind c && not (is_locked held c.id) ≡ true) cs
    → (i : ℕ) → contains (map key_of cs) i ≡ true
    → is_locked held i ≡ false
unfolding contains
chosen_apart held kind [] h i e = cc
chosen_apart held kind (c ∷ cs) (h, hs) i e = elim (Bool-cases (c.id == i)) [
  | inl same ↦ ground (arith, h, ap (is_locked held) (==→eq c.id i same))
  | inr other ↦ chosen_apart held kind cs hs i (ground (arith, e, other))
]

Step-IsExclusive : {s t : System} → Step s t → IsExclusive s → IsExclusive t
Step-IsExclusive (claims s rank kind n f takes) v =
    let le : Credential → Credential → Bool = λ a b. leb (rank a.id) (rank b.id) in
    let p : Credential → Bool = λ c. is_free kind c && not (is_locked s.claims c.id) in
    record {
      unique = v.unique;
      free = (
        All-map (λ r. is_picked key_of (picks key_of le n p s.table) r ≡ true → p r ≡ true) _
            s.table (λ r h e. ground (arith, h e)) (All-is_picked key_of le n p s.table v.unique),
        v.free,
      );
      disjoint = (chosen_apart s.claims kind _ (picks-All key_of le n p s.table), v.disjoint);
      changes = (takes, v.changes);
    }
Step-IsExclusive (commits s before c after e) v =
    let (takes, changes) =
      All-without (λ d. Takes d.change) before c after
        (subst (All (λ d. Takes d.change)) e v.changes) in
    let (apart, disjoint) = Disjoint-without before c after (subst Disjoint e v.disjoint) in
    let (own, free) =
      All-without (HoldsFree s.table) before c after (subst (All (HoldsFree s.table)) e v.free) in
    record {
      unique =
          Unique-update key_of (λ r. contains c.rows r.id) c.change s.table takes.keeps v.unique;
      free = write-HoldsFree s.table c (before ++ after) takes apart free;
      disjoint = disjoint;
      changes = changes;
    }
Step-IsExclusive (rolls_back s before c after e) v = record {
  unique = v.unique;
  free =
      (All-without (HoldsFree s.table) before c after (subst (All (HoldsFree s.table)) e v.free)).1;
  disjoint = (Disjoint-without before c after (subst Disjoint e v.disjoint)).1;
  changes =
      (All-without (λ d. Takes d.change) before c after
        (subst (All (λ d. Takes d.change)) e v.changes)).1;
}

pub Reach-IsExclusive : {start s : System} → IsExclusive start → Reach start s → IsExclusive s
Reach-IsExclusive v here = v
Reach-IsExclusive v (next r st) = Step-IsExclusive st (Reach-IsExclusive v r)

pub initial :
    (table : List Credential)
    → Unique key_of table
    → IsExclusive (record { table = table; claims = [] })
initial table u = record { unique = u; free = tt; disjoint = tt; changes = tt }
