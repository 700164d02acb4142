-- ===== src/Streams.antt =====
-- service/rpc/io_stream.go, `IOStream` of service/rpc/nezha.go and `ServeNAT` of
-- cmd/dashboard/rpc/rpc.go: the streams between a user and an agent. A number stands for a
-- connection; a channel is the flag that it is closed. Copying the bytes, once both sides are
-- there, is not modelled, nor is the 500 ms pause of the loop.
pub mod Registry
pub mod Waiting
mod Tests
use nezha_diff.Base.{
  ℕ, ◌<◌, ◌-◌, Bool, true, false, not, ◌&&◌, ◌||◌, Option, none, some, String, List, [], ◌∷◌, ◌++◌,
  string_eq, nat_eq, nat_beq, ltb, if◌then◌else◌, length, get_or,
}
use nezha_diff.GoMap.{GoMap, lookup, insert, remove}
use nezha_diff.ServerClass.{Server}

-- ioStreamContext
pub record StreamContext : Type 0 where
  pub user_io : Option ℕ
  pub agent_io : Option ℕ
  pub user_io_connect_ch : Bool
  pub agent_io_connect_ch : Bool

abbrev pub Streams : Type 0
Streams = GoMap String StreamContext

unfoldable pub create_stream : String → Streams → Streams
create_stream id = insert id (record {
  user_io = none;
  agent_io = none;
  user_io_connect_ch = false;
  agent_io_connect_ch = false;
})

unfoldable pub get_stream : String → Streams → Option StreamContext
get_stream id streams = lookup id streams

abbrev pub connection : Option ℕ → List ℕ
connection none = []
connection (some c) = c ∷ []

-- The connections that are closed, and the registry.
unfoldable pub close_stream : String → Streams → List ℕ × Streams
close_stream id streams = elim (lookup id streams) [
  | none ↦ ([], streams)
  | some ctx ↦ (connection ctx.user_io ++ connection ctx.agent_io, remove id streams)
]

-- `none` is the error: stream not found.
unfoldable pub user_connected : String → ℕ → Streams → Option Streams
user_connected id user_io streams = elim (lookup id streams) [
  | none ↦ none
  | some ctx ↦
      some (insert id (record ctx { user_io = some user_io; user_io_connect_ch = true }) streams)
]

unfoldable pub agent_connected : String → ℕ → Streams → Option Streams
agent_connected id agent_io streams = elim (lookup id streams) [
  | none ↦ none
  | some ctx ↦
      some (insert id (record ctx { agent_io = some agent_io; agent_io_connect_ch = true }) streams)
]

-- Whether a connection is not nil.
abbrev pub is_there : Option ℕ → Bool
is_there none = false
is_there (some c) = true

-- One turn of the loop of `StartStream`: whether it breaks. A closed channel is ready at once, so that
-- the timer, which each turn starts anew, only wins where both are open; `user_first` says which
-- of two ready channels `select` takes.
unfoldable pub turn : Bool → StreamContext → Bool
turn user_first ctx =
    if ctx.user_io_connect_ch && ctx.agent_io_connect_ch
    then (if user_first then is_there ctx.agent_io else is_there ctx.user_io)
    else if ctx.user_io_connect_ch
    then is_there ctx.agent_io
    else if ctx.agent_io_connect_ch
    then is_there ctx.user_io
    else true

pub data Started : Type 0 where
  connected : ℕ → ℕ → Started
  no_connection no_user no_agent : Started

-- What `StartStream` goes on with behind the loop.
unfoldable pub start_result : StreamContext → Started
start_result ctx = elim ctx.user_io [
  | none ↦ elim ctx.agent_io [ none ↦ no_connection | some _ ↦ no_user ]
  | some u ↦ elim ctx.agent_io [ none ↦ no_agent | some a ↦ connected u a ]
]

-- The loop over the contexts that its turns see; `none` stands for a loop that still runs.
unfoldable pub wait : List (Bool × StreamContext) → Option Started
wait [] = none
wait ((user_first, ctx) ∷ turns) =
    let rest = wait turns in if turn user_first ctx then some (start_result ctx) else rest

-- The test of the first message of `IOStream`: an identifier is refused.
unfoldable pub is_refused : List ℕ → Bool
is_refused bytes =
    ltb (length bytes) 4
    || (not (nat_beq (get_or bytes 0 0) 0xff)
        && not (nat_beq (get_or bytes 1 0) 0x05)
        && not (nat_beq (get_or bytes 2 0) 0xff)
        && nat_beq (get_or bytes 3 0) 0x05)

-- What `ServeNAT` meets: the fresh identifier, whether the description of the task, its sending and the
-- wrapping of the request succeed, with the connection that it is wrapped to, what the turns of
-- `StartStream` have seen so far, and whether the copying between the two sides has ended.
pub record NatRequest : Type 0 where
  pub stream_id : Option String
  pub task_data : Bool
  pub sent : Bool
  pub wrapped : Option ℕ
  pub turns : List (Bool × StreamContext)
  pub copied : Bool

-- Whether `StartStream` has returned: with both sides it copies until one of them ends.
abbrev pub has_returned : Bool → Option Started → Bool
has_returned copied none = false
has_returned copied (some (connected u a)) = copied
has_returned copied (some no_connection) = true
has_returned copied (some no_user) = true
has_returned copied (some no_agent) = true

-- The status of the reply, 0 where the stream has been started and `none` while `StartStream` goes on,
-- and the registry before the deferred call of `CloseStream`.
unfoldable pub serve_stream : String → NatRequest → Streams → Option ℕ × Streams
serve_stream id r streams =
    let opened = create_stream id streams in
    if not r.task_data
    then (some 503, opened)
    else if not r.sent
    then (some 503, opened)
    else elim r.wrapped [
      | none ↦ (some 503, opened)
      | some user_io ↦ elim (user_connected id user_io opened) [
        | none ↦ (some 503, opened)
        | some joined ↦
            if has_returned r.copied (wait r.turns) then (some 0, joined) else (none, joined)
      ]
    ]

-- The deferred call runs when the stream has ended.
unfoldable pub serve_nat :
    {F : Type 0} → GoMap ℕ (Server F) → ℕ → NatRequest → Streams → Option ℕ × Streams
serve_nat servers server_id r streams = elim (lookup server_id servers) [
  | none ↦ (some 503, streams)
  | some server ↦ elim server.task_stream [
    | none ↦ (some 503, streams)
    | some _ ↦ elim r.stream_id [
      | none ↦ (some 503, streams)
      | some id ↦
          let served = serve_stream id r streams in
          elim (served.0) [
            | none ↦ (none, served.1)
            | some status ↦ (some status, (close_stream id (served.1)).1)
          ]
    ]
  ]
]
