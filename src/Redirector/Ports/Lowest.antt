-- ===== src/Redirector/Ports/Lowest.antt =====
-- The port that is allocated is free, in range and the lowest such; one is found unless the range
-- is used up.
use cyberx_event_mgmt.Base.{
  Option, none, Bool, ◌&&◌, ◌||◌, str_eq, opt_eq, is_some, find, select, sym, ◌∙◌, ℕ, zero, suc,
  ◌+◌, ◌≤◌, ◌<◌, String, some, true, false, List, [], ◌∷◌, ◌≢◌, ℕ_discrete, dec_lt, if◌then◌else◌,
  ◌≡◌, refl, ◌⊎◌, inl, inr, arith, ◌==◌, Bool-cases, contains, length, ok,
}
use cyberx_event_mgmt.Redirector.Data.{Stream}
use cyberx_event_mgmt.Redirector.Ports.{
  sni_bridge_port_min, sni_bridge_port_max, used_ports, first_free, allocate_bridge_port, add_port,
  bridge_ports, of_redirector,
}

first_free-range :
    (used : List ℕ) (c n p : ℕ)
    → first_free used c n ≡ some p
    → (c ≤ p) × (p < c + n) × (contains used p ≡ false)
unfolding first_free
first_free-range used c zero p h = cc
first_free-range used c (suc n) p h = elim (Bool-cases (contains used c)) [
  | inl taken ↦
      let (low, high, free) = first_free-range used (suc c) n p (rw taken at h) in
      (omega arith, omega arith, free)
  | inr free ↦ let here : c ≡ p = ground arith in (omega arith, omega arith, rw (← here) free)
]

-- Every port that was passed over is used.
first_free-lowest :
    (used : List ℕ) (c n p d : ℕ)
    → first_free used c n ≡ some p
    → c ≤ d
    → d < p
    → contains used d ≡ true
unfolding first_free
first_free-lowest used c zero p d h l m = cc
first_free-lowest used c (suc n) p d h l m = elim (Bool-cases (contains used c)) [
  | inl taken ↦ elim (ℕ_discrete c d) [
    | yes here ↦ rw (← here) taken
    | no other ↦ first_free-lowest used (suc c) n p d (rw taken at h) (omega arith) m
  ]
  | inr free ↦ absurd (ground arith)
]

-- The port that is allocated is not used and the lowest such of the range.
pub allocate_bridge_port-used :
    (streams : List Stream) (redirector_id : String) (c : ℕ) {p : ℕ}
    → allocate_bridge_port streams redirector_id ≡ ok p
    → sni_bridge_port_min ≤ c
    → let used = used_ports streams redirector_id in
      (sni_bridge_port_min ≤ p)
      × (p ≤ sni_bridge_port_max)
      × (contains used p ≡ false)
      × ((p ≤ c) ⊎ (contains used c ≡ true))
unfolding allocate_bridge_port
allocate_bridge_port-used streams redirector_id c {p} h l =
    let used = used_ports streams redirector_id in
    let found : first_free used 10000 999 ≡ some p = ground arith in
    let (low, high, free) = first_free-range used 10000 999 p found in
    (
      low,
      omega arith,
      free,
      elim (dec_lt c p) [
        | yes below ↦ inr (first_free-lowest used 10000 999 p c found l below)
        | no above ↦ inl (omega arith)
      ],
    )

-- The stream is of this redirector and has this bridge port.
abbrev pub holds : String → ℕ → Stream → Bool
holds redirector_id p s =
    str_eq s.redirector_id redirector_id && opt_eq s.internal_bridge_port (some p)

contains-add_port :
    (o : Option ℕ) (ports : List ℕ) (p : ℕ)
    → contains (add_port o ports) p ≡ (opt_eq o (some p) || contains ports p)
unfolding contains
contains-add_port none ports p = refl
contains-add_port (some q) ports p = ground arith

-- The used ports are those that streams of the redirector have.
contains-used_ports :
    (streams : List Stream) (redirector_id : String) (p : ℕ)
    → contains (used_ports streams redirector_id) p ≡ is_some (find (holds redirector_id p) streams)
unfolding used_ports bridge_ports select find contains
contains-used_ports [] redirector_id p = refl
contains-used_ports (s ∷ streams) redirector_id p =
    let rest = contains-used_ports streams redirector_id p in
    let used = bridge_ports (select (of_redirector redirector_id) streams) in
    let added = contains-add_port s.internal_bridge_port used p in
    elim (Bool-cases (str_eq s.redirector_id redirector_id)) [
      | inl own ↦ elim (Bool-cases (opt_eq s.internal_bridge_port (some p))) [
        | inl same ↦ rw (own, same) (added ∙ rw same refl)
        | inr other ↦ rw (own, other) (added ∙ rw other rest)
      ]
      | inr foreign ↦ rw foreign rest
    ]

none_found : {A : Type 0} (o : Option A) → is_some o ≡ false → o ≡ none
none_found none h = refl
none_found (some x) h = absurd (cc h)

-- The port that is allocated lies in the bridge range and no stream of the redirector has it; and any
-- port from the range's start on is at least it, or a stream of the redirector has it.
pub allocate_bridge_port_lowest :
    (streams : List Stream) (redirector_id : String) (c : ℕ) {p : ℕ}
    → allocate_bridge_port streams redirector_id ≡ ok p
    → sni_bridge_port_min ≤ c
    → (sni_bridge_port_min ≤ p)
      × (p ≤ sni_bridge_port_max)
      × (find (holds redirector_id p) streams ≡ none)
      × ((p ≤ c) ⊎ (is_some (find (holds redirector_id c) streams) ≡ true))
allocate_bridge_port_lowest streams redirector_id c {p} h l =
    let (low, high, free, lowest) = allocate_bridge_port-used streams redirector_id c {p = p} h l in
    (
      low,
      high,
      none_found (find (holds redirector_id p) streams)
          (sym (contains-used_ports streams redirector_id p) ∙ free),
      elim lowest [
        | inl above ↦ inl above
        | inr used ↦ inr (sym (contains-used_ports streams redirector_id c) ∙ used)
      ],
    )

-- The list without one value.
without : ℕ → List ℕ → List ℕ
without a [] = []
without a (x ∷ xs) = let rest = without a xs in if x == a then rest else x ∷ rest

length-without : (a : ℕ) (xs : List ℕ) → length (without a xs) ≤ length xs
unfolding without
length-without a [] = omega arith
length-without a (x ∷ xs) = ground (arith, length-without a xs)

length-without_lt : (a : ℕ) (xs : List ℕ) → contains xs a ≡ true → length (without a xs) < length xs
unfolding without contains
length-without_lt a [] h = cc
length-without_lt a (x ∷ xs) h = ground (arith, length-without_lt a xs, length-without a xs)

contains-without : (a b : ℕ) (xs : List ℕ) → a ≢ b → contains (without a xs) b ≡ contains xs b
unfolding without contains
contains-without a b [] h = refl
contains-without a b (x ∷ xs) h = ground (arith, contains-without a b xs h)

first_free-without :
    (used : List ℕ) (a c n : ℕ) → a < c → first_free (without a used) c n ≡ first_free used c n
unfolding first_free
first_free-without used a c zero h = refl
first_free-without used a c (suc n) h =
    rw (contains-without a c used (omega arith), first_free-without used a (suc c) n (omega arith))

-- With fewer used ports than candidates one is free.
first_free-total :
    (used : List ℕ) (c n : ℕ) → length used < n → (p : ℕ) × (first_free used c n ≡ some p)
unfolding first_free
first_free-total used c zero h = elim h [ ]
first_free-total used c (suc n) h = elim (Bool-cases (contains used c)) [
  | inr free ↦ (c, rw free)
  | inl taken ↦
      let (p, found) =
        first_free-total (without c used) (suc c) n
          (omega (arith, length-without_lt c used taken)) in
      (p, rw (taken, ← first_free-without used c (suc c) n (omega arith)) found)
]

-- As long as the streams of a redirector hold fewer than 999 bridge ports, one is allocated.
pub allocate_bridge_port_total :
    (streams : List Stream) (redirector_id : String)
    → length (used_ports streams redirector_id) < 999
    → (p : ℕ) × (allocate_bridge_port streams redirector_id ≡ ok p)
unfolding allocate_bridge_port
allocate_bridge_port_total streams redirector_id h =
    let (p, found) = first_free-total (used_ports streams redirector_id) 10000 999 h in
    (p, rw found)
