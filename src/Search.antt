-- ===== src/Search.antt =====
-- `SearchByID` of model/common.go with `SplitList` of model/server.go: the entries of a sorted list that
-- a request names by their numbers. slices.BinarySearchFunc is written out, with a turn of its loop
-- for each unit of fuel; a text that is no number is `none` in the sequence.
pub mod Binary
mod Tests
use nezha_diff.Base.{
  ℕ, zero, suc, ◌+◌, ◌/◌, Bool, true, false, not, ◌&&◌, Option, none, some, List, [], ◌∷◌, ◌++◌,
  nat_beq, ltb, if◌then◌else◌, length, take, drop, get_elem?,
}
use nezha_diff.Int.{ℤ, pos, negsuc}
use nezha_diff.Common.{CommonInterface}
use nezha_diff.ServerClass.{Server, server_common}

module _ {E : Type 0} ⦃c : CommonInterface E⦄ where
  -- The number at an index; the loop asks only for indexes within the list.
  unfoldable pub id_at : List E → ℕ → ℕ
  id_at [] i = 0
  id_at (x ∷ xs) zero = c.get_id x
  id_at (x ∷ xs) (suc i) = id_at xs i

  -- for i < j { h := (i + j) / 2; ... }
  unfoldable pub bisect : ℕ → List E → ℕ → ℕ → ℕ → ℕ
  bisect zero xs target i j = i
  bisect (suc fuel) xs target i j =
      let h = (i + j) / 2 in
      let right = bisect fuel xs target (suc h) j in
      let left = bisect fuel xs target i h in
      if ltb i j then (if ltb (id_at xs h) target then right else left) else i

  unfoldable pub append_binary_search : List E → List E → ℕ → List E
  append_binary_search x y target =
      let i = bisect (length y) y target 0 (length y) in
      elim (get_elem? y i) [
        | none ↦ x
        | some e ↦ if nat_beq (c.get_id e) target then x ++ e ∷ [] else x
      ]

  -- slices.IndexFunc, and the entry at the index.
  unfoldable pub find_id : List E → ℕ → Option E
  find_id [] target = none
  find_id (e ∷ es) target =
      let rest = find_id es target in if nat_beq (c.get_id e) target then some e else rest

  unfoldable pub append_search : List E → List E → ℕ → List E
  append_search x y target = elim (find_id y target) [ none ↦ x | some e ↦ x ++ e ∷ [] ]

  unfoldable pub search_each : List (Option ℕ) → List E → List E → List E
  search_each [] s x = s
  search_each (none ∷ ids) s x = search_each ids s x
  search_each (some id ∷ ids) s x = search_each ids (append_binary_search s x id) x

  abbrev pub or_all : List E → List E → List E
  or_all [] x = x
  or_all (e ∷ es) x = e ∷ es

  -- SearchByID for a list without priorities.
  unfoldable pub search_by_id : List (Option ℕ) → List E → List E
  search_by_id ids x = or_all (search_each ids [] x) x

abbrev pub is_zero : ℤ → Bool
is_zero (pos zero) = true
is_zero (pos (suc n)) = false
is_zero (negsuc n) = false

module _ {F : Type 0} where
  -- `SplitList`: up to the first server without a priority, and from there on.
  unfoldable pub split_list : List (Server F) → List (Server F) × List (Server F)
  split_list [] = ([], [])
  split_list (s ∷ ss) =
      let rest = split_list ss in
      if is_zero s.display_index then ([], s ∷ ss) else (s ∷ rest.0, rest.1)

  -- No server without a priority: nil and the whole list.
  abbrev pub has_zero : List (Server F) → Bool
  has_zero [] = false
  has_zero (s ∷ ss) = if is_zero s.display_index then true else has_zero ss

  unfoldable pub split_server_list : List (Server F) → List (Server F) × List (Server F)
  split_server_list x = if has_zero x then split_list x else ([], x)

  unfoldable pub search_pri_each :
      List (Option ℕ)
      → List (Server F)
      → List (Server F)
      → List (Server F)
      → List (Server F)
      → List (Server F)
  search_pri_each [] clist1 clist2 plist list2 = clist1 ++ clist2
  search_pri_each (none ∷ ids) clist1 clist2 plist list2 =
      search_pri_each ids clist1 clist2 plist list2
  search_pri_each (some id ∷ ids) clist1 clist2 plist list2 =
      search_pri_each ids (append_search clist1 plist id) (append_binary_search clist2 list2 id)
        plist list2

  unfoldable pub search_by_id_pri : List (Option ℕ) → List (Server F) → List (Server F)
  search_by_id_pri ids x =
      let parts = split_server_list x in or_all (search_pri_each ids [] [] (parts.0) (parts.1)) x
