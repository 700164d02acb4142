-- ===== src/Search/Tests.antt =====
-- Two tasks, and servers whose order by priority is not that of their numbers.
use nezha_diff.Base.{ℕ, ◌≡◌, refl, some, List, [], ◌∷◌}
use nezha_diff.Int.{pos, negsuc}
use nezha_diff.Crons.{Cron, cron_common}
use nezha_diff.Crons.Handlers.{zero_cron}
use nezha_diff.ServerClass.{Server}
use nezha_diff.ServerClass.Tests.{web}
use nezha_diff.Search.{search_by_id_pri}

abbrev tasks : List Cron
tasks = record zero_cron { id = 2 } ∷ record zero_cron { id = 5 } ∷ []

-- Servers below zero follow those at zero, so the second part is not sorted by number: number 1 is
-- not found, and the whole list is the answer.
abbrev mixed : List (Server ℕ)
mixed =
    record web { id = 3; display_index = pos 0 }
    ∷ record web { id = 4; display_index = pos 0 }
    ∷ record web { id = 1; display_index = negsuc 0 }
    ∷ []

below_zero_is_missed : search_by_id_pri (some 1 ∷ []) mixed ≡ mixed
unfolding search_by_id_pri nezha_diff.Search.split_server_list nezha_diff.Search.split_list
    nezha_diff.Search.search_pri_each nezha_diff.Search.append_search
    nezha_diff.Search.append_binary_search nezha_diff.Search.bisect nezha_diff.Search.id_at
    nezha_diff.Search.find_id
below_zero_is_missed = refl
