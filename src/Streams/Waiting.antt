-- ===== src/Streams/Waiting.antt =====
-- How `StartStream` of service/rpc/io_stream.go waits for the two sides.
use nezha_diff.Base.{
  ◌≡◌, refl, Bool, true, not, none, some, List, [], ◌∷◌, ◌++◌, arith, if◌then◌else◌, All,
}
use nezha_diff.Streams.{StreamContext, turn, start_result, wait, is_there}
use nezha_diff.Streams.Registry.{IsSettled}

-- Exactly one side has connected.
abbrev pub is_half : StreamContext → Bool
is_half ctx = if is_there ctx.user_io then not (is_there ctx.agent_io) else is_there ctx.agent_io

turn-settled :
    (user_first : Bool) (ctx : StreamContext)
    → IsSettled ctx
    → turn user_first ctx ≡ not (is_half ctx)
unfolding turn
turn-settled user_first ctx s = ground (arith, s.0, s.1)

-- The loop ends at the first turn that sees both sides connected, or neither for the time of the
-- timer. While one side alone is connected it goes on, for any number of turns.
pub wait_lem :
    (turns : List (Bool × StreamContext)) (user_first : Bool) (ctx : StreamContext)
    (later : List (Bool × StreamContext))
    → All (λ t. IsSettled (t.1) × (is_half (t.1) ≡ true)) turns
    → IsSettled ctx
    → (wait turns ≡ none)
      × (wait (turns ++ (user_first, ctx) ∷ later)
          ≡ (if is_half ctx then wait later else some (start_result ctx)))
unfolding wait
wait_lem [] user_first ctx later h s = (refl, ground (arith, turn-settled user_first ctx s))
wait_lem ((first, seen) ∷ turns) user_first ctx later h s =
    let (idle, ending) = wait_lem turns user_first ctx later h.1 s in
    let going = turn-settled first seen h.0.0 in
    (ground (arith, idle, going, h.0.1), ground (arith, ending, going, h.0.1))
