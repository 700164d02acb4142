-- ===== src/Access.antt =====
-- What a request passes before its handler: `getRealIp` and `waf` of cmd/dashboard/rpc/rpc.go for the
-- agents, `RealIp` and `Waf` of cmd/dashboard/controller/waf/waf.go for the browsers, and
-- `GetIPFromHeader` of pkg/utils/utils.go. netip.ParseAddr, with the text of the address that it
-- reads, and strings.TrimSpace are arguments.
pub mod Gates
mod Tests
use Prim.Native.Char.{code}
use nezha_diff.Base.{
  ℕ, Bool, true, false, Option, none, some, String, List, [], ◌∷◌, string_eq, ◌==◌, nat_beq,
  if◌then◌else◌,
}
use nezha_diff.Waf.{Answer, allowed, blocked, failed, BlockTable, check_ip}

-- ConfigUsePeerIP
abbrev pub config_use_peer_ip : String
config_use_peer_ip = "NZ::Use-Peer-IP"

-- The part behind the last comma, of what strings.Split gives; `taken` is the part that is read.
unfoldable pub last_part : String → String → String
last_part taken String.[] = taken
last_part taken (String.◌∷◌ c rest) =
    if nat_beq (code c) 44 then last_part rest rest else last_part taken rest

unfoldable pub get_ip_from_header :
    (String → String) → (String → Option String) → String → Option String
get_ip_from_header trim parse_addr value = parse_addr (trim (last_part value value))

-- What the context of an agent's request holds; no real IP reads as the empty string.
pub record AgentContext : Type 0 where
  pub connecting_ip : String
  pub real_ip : Option String

abbrev pub or_empty : Option String → String
or_empty none = ""
or_empty (some ip) = ip

-- `header` is Conf.AgentRealIPHeader; `vals` are the values of the metadata under it. `none` is an
-- error.
unfoldable pub get_real_ip :
    (String → Option String) → String → String → List String → Option AgentContext
get_real_ip ip_of header connecting_ip vals =
    if header == ""
    then some (record { connecting_ip = connecting_ip; real_ip = none })
    else if header == config_use_peer_ip
    then (if connecting_ip == ""
        then none
        else some (record { connecting_ip = connecting_ip; real_ip = some "" }))
    else elim vals [
      | [] ↦ none
      | v ∷ _ ↦ elim (ip_of v) [
        | none ↦ none
        | some ip ↦ some (record { connecting_ip = connecting_ip; real_ip = some ip })
      ]
    ]

-- model.CheckIP returns no error.
abbrev pub is_allowed : Answer → Bool
is_allowed allowed = true
is_allowed blocked = false
is_allowed failed = false

-- Whether the chain of interceptors calls the handler.
unfoldable pub agent_reaches :
    {B : Type 0}
    → BlockTable B
    → ℕ
    → (String → Option String)
    → String
    → String
    → List String
    → Bool
agent_reaches t now ip_of header connecting_ip vals =
    elim (get_real_ip ip_of header connecting_ip vals) [
      | none ↦ false
      | some ctx ↦ is_allowed (check_ip t now (or_empty ctx.real_ip))
    ]

-- `RealIp`: the address that it sets, if it goes on.
unfoldable pub web_real_ip :
    (String → Option String) → String → String → String → Option (Option String)
web_real_ip ip_of header remote_ip vals =
    if header == ""
    then some none
    else if header == config_use_peer_ip
    then some (some remote_ip)
    else if vals == ""
    then none
    else elim (ip_of vals) [ none ↦ none | some ip ↦ some (some ip) ]

unfoldable pub web_reaches :
    {B : Type 0} → BlockTable B → ℕ → (String → Option String) → String → String → String → Bool
web_reaches t now ip_of header remote_ip vals = elim (web_real_ip ip_of header remote_ip vals) [
  | none ↦ false
  | some ip ↦ is_allowed (check_ip t now (or_empty ip))
]
