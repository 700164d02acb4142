-- ===== src/Streams/Tests.antt =====
-- A stream that the user has joined and the agent has not.
use nezha_diff.Base.{ℕ, ◌≡◌, refl, true, false, none, some, [], ◌∷◌, string_eq}
use nezha_diff.GoMap.{GoMap, lookup}
use nezha_diff.ServerClass.{Server}
use nezha_diff.ServerClass.Tests.{web}
use nezha_diff.Streams.{StreamContext, Streams, NatRequest, wait, start_result, is_refused}
use nezha_diff.Streams.Registry.{AreSettled}
use nezha_diff.Streams.Waiting.{wait_lem}

abbrev no_streams : Streams
no_streams = []

no_streams-AreSettled : AreSettled no_streams
unfolding lookup
no_streams-AreSettled id ctx l = cc l

abbrev half : StreamContext
half = record {
  user_io = some 7;
  agent_io = none;
  user_io_connect_ch = true;
  agent_io_connect_ch = false;
}

-- The agent has not connected in two turns.
abbrev request : NatRequest
request = record {
  stream_id = some "a";
  task_data = true;
  sent = true;
  wrapped = some 7;
  turns = (true, half) ∷ (true, half) ∷ [];
  copied = false;
}

abbrev servers : GoMap ℕ (Server ℕ)
servers = (3, web) ∷ []

abbrev whole_stream : StreamContext
whole_stream = record half { agent_io = some 8; agent_io_connect_ch = true }

wait_lem_example :
    (wait ((true, half) ∷ (true, half) ∷ []) ≡ none)
    × (wait ((true, half) ∷ (true, half) ∷ (true, whole_stream) ∷ [])
        ≡ some (start_result whole_stream))
wait_lem_example =
    wait_lem ((true, half) ∷ (true, half) ∷ []) true whole_stream []
      (((refl, refl), refl), (((refl, refl), refl), tt)) (refl, refl)

-- Any four bytes pass for the magic number, unless the first three are all wrong and the last is right.
zeros_pass : is_refused (0 ∷ 0 ∷ 0 ∷ 0 ∷ []) ≡ false
unfolding is_refused
zeros_pass = refl
