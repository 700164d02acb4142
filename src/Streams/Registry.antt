-- ===== src/Streams/Registry.antt =====
-- The registry of streams of service/rpc/io_stream.go.
use nezha_diff.Base.{
  ℕ, ◌≡◌, Bool, not, ◌&&◌, Option, true, false, none, some, String, List, [], ◌∷◌, arith, string_eq,
  nat_eq, Option-cases, inl, inr,
}
use nezha_diff.GoMap.{GoMap, lookup, lookup-insert, lookup-remove}
use nezha_diff.ServerClass.{Server}
use nezha_diff.Streams.{
  StreamContext, Streams, NatRequest, create_stream, close_stream, user_connected, agent_connected,
  is_there, has_returned, wait,
}

-- A channel is closed when its side has connected.
abbrev pub IsSettled : StreamContext → Type 0
IsSettled ctx =
    (ctx.user_io_connect_ch ≡ is_there ctx.user_io)
    × (ctx.agent_io_connect_ch ≡ is_there ctx.agent_io)

abbrev pub AreSettled : Streams → Type 0
AreSettled streams =
    (id : String) (ctx : StreamContext) → lookup id streams ≡ some ctx → IsSettled ctx

-- The calls on the registry, in any order.
pub data Call : Type 0 where
  creates closes : String → Call
  user_joins agent_joins : String → ℕ → Call

-- A call that fails leaves the registry.
unfoldable pub call : Call → Streams → Streams
call (creates id) streams = create_stream id streams
call (closes id) streams = (close_stream id streams).1
call (user_joins id io) streams = elim (user_connected id io streams) [
  | none ↦ streams
  | some s ↦ s
]
call (agent_joins id io) streams = elim (agent_connected id io streams) [
  | none ↦ streams
  | some s ↦ s
]

unfoldable pub call_all : List Call → Streams → Streams
call_all [] streams = streams
call_all (c ∷ cs) streams = call_all cs (call c streams)

call-AreSettled : (c : Call) (streams : Streams) → AreSettled streams → AreSettled (call c streams)
unfolding call create_stream close_stream user_connected agent_connected
call-AreSettled (creates id) streams a j ctx l = ground (
  arith,
  a j ctx,
  l,
  lookup-insert id j
      (record {
        user_io = none;
        agent_io = none;
        user_io_connect_ch = false;
        agent_io_connect_ch = false;
      })
      streams,
)
call-AreSettled (closes id) streams a j ctx l =
    ground (arith, a j ctx, l, lookup-remove id j streams)
call-AreSettled (user_joins id io) streams a j ctx l = elim (Option-cases (lookup id streams)) [
  | inl e ↦ ground (arith, a j ctx, l, e)
  | inr (old, e) ↦ ground (
    arith,
    a j ctx,
    a id old e,
    l,
    e,
    lookup-insert id j (record old { user_io = some io; user_io_connect_ch = true }) streams,
  )
]
call-AreSettled (agent_joins id io) streams a j ctx l = elim (Option-cases (lookup id streams)) [
  | inl e ↦ ground (arith, a j ctx, l, e)
  | inr (old, e) ↦ ground (
    arith,
    a j ctx,
    a id old e,
    l,
    e,
    lookup-insert id j (record old { agent_io = some io; agent_io_connect_ch = true }) streams,
  )
]

-- Whatever is called, a stream's channel is closed exactly if that side has connected.
pub call_all-AreSettled :
    (cs : List Call) (streams : Streams) → AreSettled streams → AreSettled (call_all cs streams)
unfolding call_all
call_all-AreSettled [] streams a = a
call_all-AreSettled (c ∷ cs) streams a =
    call_all-AreSettled cs (call c streams) (call-AreSettled c streams a)

-- The stream of a request whose user side has joined.
abbrev pub joined_context : ℕ → StreamContext
joined_context io = record {
  user_io = some io;
  agent_io = none;
  user_io_connect_ch = true;
  agent_io_connect_ch = false;
}

-- Whether `StartStream` is called and has not returned.
abbrev pub is_waiting : NatRequest → Bool
is_waiting r =
    r.task_data && r.sent && is_there r.wrapped && not (has_returned r.copied (wait r.turns))

abbrev pub waiting_context : NatRequest → Option StreamContext
waiting_context r = elim r.wrapped [ none ↦ none | some io ↦ some (joined_context io) ]

abbrev pub goes_on : Option ℕ → Bool
goes_on none = true
goes_on (some status) = false

-- The agent of the profile's server is connected.
abbrev pub has_agent : {F : Type 0} → GoMap ℕ (Server F) → ℕ → Bool
has_agent servers server_id = elim (lookup server_id servers) [
  | none ↦ false
  | some server ↦ is_there server.task_stream
]
