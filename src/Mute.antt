-- ===== src/Mute.antt =====
-- `SendNotification` and `UnMuteNotification` of service/singleton/notification.go. The cache is
-- go-cache's, by the three methods that the code calls and what is documented of them. A time is a
-- number of nanoseconds since Go's zero time, and a call reads the clock once. The message is not
-- modelled: the result names the notifications that it is sent to.
pub mod History
pub mod Heard
mod Tests
use nezha_diff.Base.{
  ℕ, ◌+◌, ◌*◌, ◌^◌, ◌≤◌, ◌≡◌, Bool, true, false, Option, none, some, String, List, [], ◌∷◌, nat_eq,
  string_eq, ◌==◌, ltb, if◌then◌else◌,
}
use Prim.Native.String.{◌++◌}
use nezha_diff.Outcome.{Outcome, ok, panic, ◌>>=◌}
use nezha_diff.GoMap.{GoMap, lookup, values}
use nezha_diff.Notification.{Notification, NotificationClass, get_group_name, or_empty}

abbrev pub minute : ℕ
minute = 60 * 10 ^ 9

-- time.Hour * 24
abbrev pub one_day : ℕ
one_day = 24 * 60 * minute

abbrev pub first_notification_delay : ℕ
first_notification_delay = 15 * minute

pub record NotificationHistory : Type 0 where
  pub duration : ℕ
  pub until : ℕ

-- Get, Set with a duration above zero, and Delete, each with the present time where it reads it. An
-- item is seen up to the end of its duration.
pub record Cache (C : Type 0) : Type 0 where
  pub get : ℕ → String → C → Option NotificationHistory
  pub set : ℕ → String → NotificationHistory → ℕ → C → C
  pub delete : String → C → C
  pub get-set :
      (later now lasting : ℕ) (key : String) (h : NotificationHistory) (c : C)
      → now ≤ later
      → get later key (set now key h lasting c)
        ≡ (if ltb (now + lasting) later then none else some h)
  pub get-set_other :
      (later now lasting : ℕ) (key other : String) (h : NotificationHistory) (c : C)
      → (key == other) ≡ false
      → get later other (set now key h lasting c) ≡ get later other c
  pub get-delete : (later : ℕ) (key : String) (c : C) → get later key (delete key c) ≡ none
  pub get-delete_other :
      (later : ℕ) (key other : String) (c : C)
      → (key == other) ≡ false
      → get later other (delete key c) ≡ get later other c

unfoldable pub append_notification_group_name : String → String → String
append_notification_group_name label group_name = label ++ ":" ++ group_name

-- nHistory.Duration *= 2, and at most a day
unfoldable pub longer : ℕ → ℕ
longer duration = if ltb one_day (duration * 2) then one_day else duration * 2

abbrev pub first_history : ℕ → NotificationHistory
first_history now = record {
  duration = first_notification_delay;
  until = now + first_notification_delay;
}

abbrev pub next_history : ℕ → NotificationHistory → NotificationHistory
next_history now h = record { duration = longer h.duration; until = now + longer h.duration }

-- for _, n := range c.groupToIDList[gid]: a nil entry is dereferenced.
unfoldable pub members_of : List (Option Notification) → Outcome (List Notification)
members_of [] = ok []
members_of (none ∷ ns) = panic
members_of (some n ∷ ns) = members_of ns >>= λ rest. ok (n ∷ rest)

module _ {C : Type 0} ⦃cache : Cache C⦄ where
  -- What the label decides: the cache afterwards, and `flag`.
  unfoldable pub pass_label : ℕ → String → C → C × Bool
  pass_label now key c = elim (cache.get now key c) [
    | some h ↦
        if ltb h.until now
        then (cache.set now key (next_history now h) (longer h.duration + 10 * minute) c, true)
        else (c, false)
    | none ↦
        (cache.set now key (first_history now) (first_notification_delay + 10 * minute) c, true)
  ]

  unfoldable pub send_notification :
      ℕ → NotificationClass → ℕ → String → C → Outcome (C × List Notification)
  send_notification now class gid label c =
      let members = members_of (values (or_empty (lookup gid class.group_to_id_list))) in
      let key = append_notification_group_name label (get_group_name class gid) in
      let passed = pass_label now key c in
      if label == ""
      then (members >>= λ ns. ok (c, ns))
      else if passed.1
      then (members >>= λ ns. ok (passed.0, ns))
      else ok (passed.0, [])

  unfoldable pub un_mute_notification : NotificationClass → ℕ → String → C → C
  un_mute_notification class gid label =
      cache.delete (append_notification_group_name label (get_group_name class gid))
