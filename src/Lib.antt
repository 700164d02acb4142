-- ===== src/Lib.antt =====
-- The dashboard of the nezha server monitor. Agents on the monitored servers report their state and
-- the results of the services that they probe (service/rpc); the singletons of service/singleton
-- keep the registries, judge alert rules and services, and send notifications; the HTTP controllers
-- of cmd/dashboard edit the registries.
--
-- Shared modules
--   Base         the names that all modules use: Boolean tests on native numbers, lists measured by
--                native numbers, equality as an instance.
--   Outcome      what a Go statement leaves: a value, or a panic (nil dereference, nil-map write,
--                index out of range, division by zero).
--   GoMap, Sort  Go's maps as association lists, and slices.SortFunc. The order in which Go walks a
--                map is open; the theorems read maps through `lookup`.
--   Word, Int    uint64 with its wrap-around, and int with its sign.
--   Float64      float32 and float64: the operations the program uses, as an instance argument.
--   Text         the functions of Go's package strings that the program uses.
--
-- The program
--   Notification service/singleton/notification.go: NotificationClass with its lists, groups and the
--                two indexes between them; UpdateGroup, DeleteGroup, Update, Delete, the loading.
--                MuteLabel has the labels, Notification/Requests the handlers of
--                cmd/dashboard/controller/notification_group.go.
--   Mute         SendNotification and UnMuteNotification of the same file, with go-cache as a
--                parameter.
--   Rule, Check  model/rule.go and model/alertrule.go: the records, and AlertRule.Check.
--   Rule/Snapshot, Rule/Cycle
--                model/rule.go: Rule.Snapshot, and the cycles of transfer rules; the calendar and
--                the sums of the table of transfers are parameters.
--   AlertCell    service/singleton/alertsentinel.go: what checkStatus does with one alert and one
--                server per tick: the store of ticks, the previous state, and the calls that leave.
--   Alerts       service/singleton/alertsentinel.go: the alerts with their three stores, the tick over
--                all alerts and servers, OnRefreshOrAddAlert and OnDeleteAlert. Where a tick meets one
--                alert and one server it is AlertCell's.
--                Alerts/Handlers has cmd/dashboard/controller/alertrule.go.
--   Common       model/common.go, model/user.go, class.CheckPermission of singleton.go.
--   Search       model/common.go and SplitList of model/server.go: the entries that a request names.
--   ServerClass  service/singleton/server.go: the registry of servers, the index by UUID, the order.
--   Sentinel     service/singleton/servicesentinel.go: the tables of the service monitor, LoadStats,
--                the turn of the day, Update, Delete, and the worker that takes reports
--                (Sentinel/Report has its parts, Sentinel/Worker puts them together);
--                Sentinel/Start has NewServiceSentinel and loadServiceHistory.
--   NatClass     service/singleton/nat.go: the NAT profiles with their index.
--   Host         model/host.go: the records of a host and the messages of the agents.
--   Agent        service/rpc/nezha.go: the reports of the state and of the host, and
--                RecordTransferHourlyUsage of singleton.go.
--   Streams      service/rpc/io_stream.go, and ServeNAT of cmd/dashboard/rpc/rpc.go.
--   Dispatch     cmd/dashboard/rpc/rpc.go: which agents get a service monitor.
--   Access       getRealIp and waf of the same file, and cmd/dashboard/controller/waf: what a request
--                passes before its handler.
--   Users        service/singleton/user.go; Users/Auth has Check of service/rpc/auth.go.
--   Crons        service/singleton/crontask.go and cmd/dashboard/controller/cron.go: the tasks, with
--                the scheduler as a parameter.
--   Ddns         service/singleton/ddns.go, the retries of pkg/ddns/ddns.go, and
--                cmd/dashboard/controller/ddns.go.
--   Waf          model/waf.go: CheckIP, with the queries as parameters.
--   Samples      natural numbers in the place of floating-point numbers, for the tests.
--
-- Loops are structural recursion over the list that the source ranges over. The one loop without such
-- a list, `advance` of Rule/Cycle, takes fuel: one turn for each nanosecond up to now, and one more,
-- which is enough since each step of the calendar leads to a later time.
-- Calls that leave a component (the database, notifications, scheduled tasks) are values of a data
-- type of effects. A method runs under its locks from start to end, so each call is one step;
-- goroutines that send notifications are effects and change no state here, and the loops that wait
-- (StartStream) take the states that their turns see. Times are nanoseconds
-- since Go's zero time; parsing and printing of times, the scheduler and the clock are parameters.
--
-- Not modelled: the generated protocol code, the wrappers of the gRPC, websocket, GeoIP and i18n
-- libraries, authentication by JWT and OAuth2, the configuration file and the start-up of main.go,
-- since they only call libraries; the HTTP controllers but those of tasks, of dynamic DNS, of alert
-- rules and of notification groups;
-- RequestTask and ReportGeoIP of the agent protocol, and the bytes that a stream copies.
pub mod Access
pub mod Agent
pub mod AlertCell
pub mod Alerts
pub mod Base
pub mod Check
pub mod Common
pub mod Crons
pub mod Ddns
pub mod Dispatch
pub mod Float64
pub mod GoMap
pub mod Host
pub mod Int
pub mod Mute
pub mod MuteLabel
pub mod NatClass
pub mod Notification
pub mod Outcome
pub mod Rule
pub mod Samples
pub mod Search
pub mod Sentinel
pub mod ServerClass
pub mod Sort
pub mod Streams
pub mod Text
pub mod Users
pub mod Waf
pub mod Word
