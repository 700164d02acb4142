-- ===== src/Mute/Tests.antt =====
-- A table with expiry times as the cache, and three requests under one label.
use text.Mathlib.TextEquality.{eq_iff}
use nezha_diff.Base.{
  ℕ, ◌+◌, ◌*◌, ◌≤◌, ◌≡◌, refl, false, Option, none, some, String, List, [], ◌∷◌, arith, string_eq,
  nat_eq, ◌==◌, ltb, if◌then◌else◌,
}
use nezha_diff.GoMap.{GoMap, lookup, insert, remove, lookup-insert, lookup-remove}
use nezha_diff.Mute.{
  NotificationHistory, Cache, minute, first_notification_delay, pass_label, longer,
}
use nezha_diff.Mute.History.{Request, send, IsSpaced, un_mutes, passing, requests-IsSpaced}
use nezha_diff.Mute.Heard.{IsHeard, requests-IsHeard}

abbrev Table : Type 0
Table = GoMap String (NotificationHistory × ℕ)

unfoldable table_get : ℕ → String → Table → Option NotificationHistory
table_get now key m = elim (lookup key m) [
  | none ↦ none
  | some (h, last) ↦ if ltb last now then none else some h
]

abbrev table_set : ℕ → String → NotificationHistory → ℕ → Table → Table
table_set now key h lasting = insert key (h, now + lasting)

table_get-set :
    (later now lasting : ℕ) (key : String) (h : NotificationHistory) (c : Table)
    → now ≤ later
    → table_get later key (table_set now key h lasting c)
      ≡ (if ltb (now + lasting) later then none else some h)
unfolding table_get
table_get-set later now lasting key h c le =
    ground (arith, lookup-insert key key (h, now + lasting) c, eq_iff key key)

table_get-set_other :
    (later now lasting : ℕ) (key other : String) (h : NotificationHistory) (c : Table)
    → (key == other) ≡ false
    → table_get later other (table_set now key h lasting c) ≡ table_get later other c
unfolding table_get
table_get-set_other later now lasting key other h c ne =
    ground (arith, lookup-insert key other (h, now + lasting) c, ne)

table_get-delete :
    (later : ℕ) (key : String) (c : Table) → table_get later key (remove key c) ≡ none
unfolding table_get
table_get-delete later key c = ground (arith, lookup-remove key key c, eq_iff key key)

table_get-delete_other :
    (later : ℕ) (key other : String) (c : Table)
    → (key == other) ≡ false
    → table_get later other (remove key c) ≡ table_get later other c
unfolding table_get
table_get-delete_other later key other c ne = ground (arith, lookup-remove key other c, ne)

instance abbrev table : Cache Table
table = record {
  get = table_get;
  set = table_set;
  delete = remove;
  get-set = table_get-set;
  get-set_other = table_get-set_other;
  get-delete = table_get-delete;
  get-delete_other = table_get-delete_other;
}

abbrev nothing : Table
nothing = []

abbrev hour_of_requests : List Request
hour_of_requests =
    send (1 * minute) "down" ∷ send (2 * minute) "down" ∷ send (17 * minute) "down" ∷ []

requests-IsSpaced_example :
    IsSpaced first_notification_delay (passing "down" hour_of_requests nothing)
unfolding un_mutes table_get lookup
requests-IsSpaced_example =
    requests-IsSpaced "down" hour_of_requests 0 nothing
      (omega arith, (omega arith, (omega arith, tt))) refl (λ later. refl)

requests_pass : passing "down" hour_of_requests nothing ≡ 1 * minute ∷ 17 * minute ∷ []
unfolding passing pass_label table_get lookup insert longer
requests_pass = refl

requests-IsHeard_example : IsHeard "down" none hour_of_requests nothing
unfolding table_get lookup
requests-IsHeard_example =
    requests-IsHeard "down" hour_of_requests 0 nothing
      (omega arith, (omega arith, (omega arith, tt))) (λ later. refl)
