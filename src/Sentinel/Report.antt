-- ===== src/Sentinel/Report.antt =====
-- The parts of `worker` in service/singleton/servicesentinel.go that one report goes through:
-- `Env` has what the worker reads from elsewhere, and an `Effect` is a call that leaves the monitor.
use nezha_diff.Base.{
  ℕ, ◌+◌, ◌*◌, ◌/◌, ◌%◌, ◌^◌, Bool, not, ◌&&◌, ◌||◌, Option, none, some, String, List, [], ◌∷◌,
  ◌++◌, nat_eq, string_eq, nat_beq, if◌then◌else◌, ltb, get_elem?, length,
}
use nezha_diff.Word.{word, add_uint, sub_uint}
use nezha_diff.Float64.{Float64}
use nezha_diff.Outcome.{Outcome, ok, panic, ◌>>=◌}
use nezha_diff.GoMap.{GoMap, lookup, insert}
use nezha_diff.MuteLabel.{
  MuteLabel, service_latency_min, service_latency_max, service_state_changed,
}
use nezha_diff.ServerClass.{Server}
use nezha_diff.Sentinel.{TaskResult, ReportData, TodayStats, TaskStatus, PingStore, Service, deref}

-- `week_later` is time.Now().AddDate(0, 0, 7); a text that is no time is parsed as 0. The servers have
-- floating-point numbers of another width, `G`.
pub record Env (G : Type 0) : Type 0 where
  pub now : ℕ
  pub week_later : ℕ
  pub avg_ping_count : ℕ
  pub servers : GoMap ℕ (Server G)
  pub parse_time : String → ℕ
  pub format_time : ℕ → String

-- What Localizer.Tf is called with.
pub data Message (F : Type 0) : Type 0 where
  latency_above latency_below : String → F → F → String → Message F
  state_changed : ℕ → String → String → String → Message F
  tls_failed : String → String → Message F
  tls_expires : String → String → Message F
  tls_changed : String → String → String → String → String → Message F

-- A row of the table service_histories.
pub record ServiceHistory (F : Type 0) : Type 0 where
  pub service_id : ℕ
  pub server_id : ℕ
  pub avg_delay : F
  pub up : ℕ
  pub down : ℕ
  pub text : String

pub data Effect (F : Type 0) : Type 0 where
  db_create : ServiceHistory F → Effect F
  unmute_notification : ℕ → MuteLabel → Effect F
  send_notification : ℕ → Message F → Option MuteLabel → Effect F
  send_trigger_tasks : List ℕ → ℕ → Effect F

abbrev pub task_type_icmp_ping : ℕ
task_type_icmp_ping = 2

abbrev pub task_type_tcp_ping : ℕ
task_type_tcp_ping = 3

abbrev pub current_status_size : ℕ
current_status_size = 30

abbrev pub status_no_data : ℕ
status_no_data = 1

abbrev pub status_good : ℕ
status_good = 2

abbrev pub status_low_availability : ℕ
status_low_availability = 3

abbrev pub status_down : ℕ
status_down = 4

unfoldable pub get_status_code : ℕ → ℕ
get_status_code percent =
    if nat_beq percent 0
    then status_no_data
    else if ltb 95 percent
    then status_good
    else if ltb 80 percent
    then status_low_availability
    else status_down

-- An entry of a list that the code reads without a test of the length.
abbrev pub at : List String → ℕ → Outcome String
at xs i = elim (get_elem? xs i) [ none ↦ panic | some x ↦ ok x ]

abbrev pub text_or_empty : Option String → String
text_or_empty none = ""
text_or_empty (some s) = s

module _ {F : Type 0} ⦃fl : Float64 F⦄ where
  -- (mean * (count - 1) + x) / count
  unfoldable pub running_mean : F → ℕ → ℕ → F → F
  running_mean mean before count x =
      fl.div (fl.add (fl.mul mean (fl.of_uint before)) x) (fl.of_uint count)

  abbrev is_ping : TaskResult F → Bool
  is_ping mh = nat_beq mh.type task_type_tcp_ping || nat_beq mh.type task_type_icmp_ping

  unfoldable pub next_ping : TaskResult F → Option (PingStore F) → PingStore F
  next_ping mh none = record { count = 1; ping = running_mean (fl.of_uint 0) 0 1 mh.delay }
  next_ping mh (some ts) = record {
    count = ts.count + 1;
    ping = running_mean ts.ping ts.count (ts.count + 1) mh.delay;
  }

  abbrev pub pings_of : Option (GoMap ℕ (PingStore F)) → GoMap ℕ (PingStore F)
  pings_of none = []
  pings_of (some m) = m

  -- The table serviceResponsePing.
  unfoldable pub record_ping :
      {G : Type 0}
      → Env G
      → ReportData F
      → GoMap ℕ (GoMap ℕ (PingStore F))
      → GoMap ℕ (GoMap ℕ (PingStore F)) × List (Effect F)
  record_ping env r table =
      let mh = r.result in
      let pings = pings_of (lookup mh.id table) in
      let ts = next_ping mh (lookup r.reporter pings) in
      let full = nat_beq ts.count env.avg_ping_count in
      let kept : PingStore F = if full then record { count = 0; ping = mh.delay } else ts in
      if is_ping mh
      then (
        insert mh.id (insert r.reporter kept pings) table,
        if full
            then db_create (record {
              service_id = mh.id;
              server_id = r.reporter;
              avg_delay = ts.ping;
              up = 0;
              down = 0;
              text = mh.text;
            })
              ∷ []
            else [],
      )
      else (table, [])

  -- Today's counters.
  unfoldable pub tally_today : TaskResult F → TodayStats F → TodayStats F
  tally_today mh v =
      if mh.successful
      then record v {
        delay = running_mean v.delay v.up (add_uint v.up 1) mh.delay;
        up = add_uint v.up 1;
      }
      else record v { down = add_uint v.down 1 }

  -- The window takes a result at most every thirty seconds; the first report only sets the clock.
  unfoldable pub append_current : ℕ → TaskResult F → TaskStatus F → TaskStatus F
  append_current now mh status =
      let since = if nat_beq status.t 0 then now else status.t in
      if ltb since now
      then record status { t = now + 30 * 10 ^ 9; result = status.result ++ (mh ∷ []) }
      else record status { t = since }

  unfoldable pub count_result : TaskResult F → TodayStats F → TodayStats F
  count_result cs rd =
      if ltb 0 cs.id
      then (if cs.successful
          then record rd {
            up = add_uint rd.up 1;
            delay =
                running_mean rd.delay (sub_uint (add_uint rd.up 1) 1) (add_uint rd.up 1) cs.delay;
          }
          else record rd { down = add_uint rd.down 1 })
      else rd

  unfoldable pub count_results : List (TaskResult F) → TodayStats F → TodayStats F
  count_results [] rd = rd
  count_results (cs ∷ rest) rd = count_results rest (count_result cs rd)

  unfoldable pub up_percent : TodayStats F → ℕ
  up_percent rd =
      let total = add_uint rd.down rd.up in if ltb 0 total then rd.up * 100 % word / total else 0

  -- A full window is saved and emptied.
  unfoldable pub persist :
      ℕ → TaskResult F → TodayStats F → TaskStatus F → TaskStatus F × List (Effect F)
  persist now mh rd status =
      if nat_beq (length status.result) current_status_size
      then (
        record status { t = now; result = [] },
        db_create (record {
          service_id = mh.id;
          server_id = 0;
          avg_delay = rd.delay;
          up = rd.up;
          down = rd.down;
          text = mh.text;
        })
            ∷ [],
      )
      else (status, [])

  unfoldable pub delay_check :
      {G : Type 0}
      → ReportData F
      → GoMap ℕ (Server G)
      → Service F
      → TaskResult F
      → Outcome (List (Effect F))
  delay_check r m ss mh =
      let group = ss.notification_group_id in
      let min_mute_label = service_latency_min mh.id in
      let max_mute_label = service_latency_max mh.id in
      if not ss.latency_notify
      then ok []
      else if fl.lt ss.max_latency mh.delay
      then (deref r.reporter m >>= λ s. ok (
          send_notification group (latency_above ss.name mh.delay ss.max_latency s.name)
            (some min_mute_label)
          ∷ []))
      else if fl.lt mh.delay ss.min_latency
      then (deref r.reporter m >>= λ s. ok (
          send_notification group (latency_below ss.name mh.delay ss.min_latency s.name)
            (some max_mute_label)
          ∷ []))
      else ok
          (unmute_notification group min_mute_label ∷ unmute_notification group max_mute_label ∷ [])

  unfoldable pub notify_status :
      {G : Type 0}
      → ReportData F
      → GoMap ℕ (Server G)
      → Service F
      → TaskResult F
      → ℕ
      → ℕ
      → Outcome (List (Effect F))
  notify_status r m ss mh last_status state_code =
      let group = ss.notification_group_id in
      let mute_label = service_state_changed mh.id in
      if ss.notify && (not (nat_beq last_status 0) || nat_beq state_code status_down)
      then (deref r.reporter m >>= λ s. ok (
          (if not (nat_beq state_code last_status)
            then unmute_notification group mute_label ∷ []
            else [])
          ++ (send_notification group (state_changed state_code ss.name s.name mh.text)
                (some mute_label)
              ∷ [])))
      else ok []

  unfoldable pub trigger_status :
      {G : Type 0}
      → ReportData F
      → GoMap ℕ (Server G)
      → Service F
      → ℕ
      → ℕ
      → Outcome (List (Effect F))
  trigger_status r m ss last_status state_code =
      if ss.enable_trigger_task && not (nat_beq last_status 0)
      then (if nat_beq state_code status_good && not (nat_beq last_status state_code)
          then (deref r.reporter m >>= λ s.
              ok (send_trigger_tasks ss.recover_trigger_tasks s.id ∷ []))
          else if nat_beq last_status status_good && not (nat_beq last_status state_code)
          then (deref r.reporter m >>= λ s. ok (send_trigger_tasks ss.fail_trigger_tasks s.id ∷ []))
          else ok [])
      else ok []

  unfoldable pub notify_check :
      {G : Type 0}
      → ReportData F
      → GoMap ℕ (Server G)
      → Service F
      → TaskResult F
      → ℕ
      → ℕ
      → Outcome (List (Effect F))
  notify_check r m ss mh last_status state_code = do
    notified ← notify_status r m ss mh last_status state_code
    triggered ← trigger_status r m ss last_status state_code
    ok (notified ++ triggered)
