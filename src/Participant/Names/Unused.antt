-- ===== src/Participant/Names/Unused.antt =====
-- The names that `generate_username` gives.
use cyberx_event_mgmt.Base.{ℕ, zero, suc, ◌≤◌, Bool, true, false, ◌≡◌, ◌⊎◌, Text}
use cyberx_event_mgmt.Participant.Names.{candidate, fallback}

module _ (is_used : Text → Bool) (base timestamp : Text) where
  -- The names with the suffixes from `k`, `n` of them, are in use.
  abbrev AllUsed : ℕ → ℕ → Type 0
  AllUsed zero k = Unit
  AllUsed (suc n) k = (is_used (candidate base k) ≡ true) × AllUsed n (suc k)

  abbrev Outcome : ℕ → ℕ → Text → Text → Type 0
  Outcome n k name other =
      ((is_used name ≡ false) × (name ≡ other)) ⊎ ((name ≡ fallback base timestamp) × AllUsed n k)

  abbrev Given : ℕ → Text → Text → Type 0
  Given n name other =
      ((is_used name ≡ false) × (name ≡ other))
      ⊎ ((name ≡ fallback base timestamp)
          × (is_used base ≡ true)
          × ((k : ℕ) → 1 ≤ k → k ≤ n → is_used (candidate base k) ≡ true))
