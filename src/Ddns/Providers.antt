-- ===== src/Ddns/Providers.antt =====
-- The providers that service/singleton/ddns.go makes of profiles, and the attempts of pkg/ddns.
use nezha_diff.Base.{
  ℕ, suc, ◌+◌, ◌≤◌, ◌<◌, ◌≡◌, ◌⊎◌, Bool, true, false, String, List, [], ◌∷◌, nat_eq, string_eq,
}
use nezha_diff.Ddns.{Provider}

-- What `retry` makes of the attempts from `first` on: it stops at the first that succeeds.
abbrev pub Tried : (ℕ → Bool) → ℕ → ℕ → ℕ × Bool → Type 0
Tried attempt first max out =
    (first ≤ out.0)
    × (out.0 ≤ first + max)
    × ((out.1 ≡ false) × (out.0 ≡ first + max)
        ⊎ (out.1 ≡ true) × ((n : ℕ) × (out.0 ≡ suc n) × (first ≤ n) × (attempt n ≡ true)))
    × ((k : ℕ) → first ≤ k → suc k < out.0 → attempt k ≡ false)

-- The domains of the profile, unless the call names others.
abbrev pub chosen : Provider → List String → List String
chosen provider [] = provider.ddns_profile.domains
chosen provider (d ∷ ds) = d ∷ ds
