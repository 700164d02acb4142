-- ===== src/Search/Binary.antt =====
-- The binary search of model/common.go against a search from the front.
use nezha_diff.Base.{
  ℕ, ◌≤◌, ◌<◌, Option, none, some, List, [], ◌∷◌, nat_beq, if◌then◌else◌, length, All,
}
use nezha_diff.Common.{CommonInterface}
use nezha_diff.Search.{id_at, append_search}

module _ {E : Type 0} ⦃c : CommonInterface E⦄ where
  -- Sorted by number, without repetition.
  abbrev pub IsAscending : List E → Type 0
  IsAscending [] = Unit
  IsAscending (x ∷ xs) = All (λ y. c.get_id x < c.get_id y) xs × IsAscending xs

  -- All numbers before an index are below the target, all from it on are not.
  abbrev Splits : List E → ℕ → ℕ → Type 0
  Splits xs target i =
      (i ≤ length xs)
      × ((k : ℕ) → k < i → id_at xs k < target)
      × ((k : ℕ) → i ≤ k → k < length xs → target ≤ id_at xs k)

  -- The entry at an index, if it has the number.
  abbrev hit : ℕ → Option E → Option E
  hit target none = none
  hit target (some e) = if nat_beq (c.get_id e) target then some e else none

  -- The search with IndexFunc in the place of the binary search.
  unfoldable pub search_front : List (Option ℕ) → List E → List E → List E
  search_front [] s x = s
  search_front (none ∷ ids) s x = search_front ids s x
  search_front (some id ∷ ids) s x = search_front ids (append_search s x id) x
