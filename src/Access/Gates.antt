-- ===== src/Access/Gates.antt =====
-- Which addresses the gates of the dashboard let pass.
use nezha_diff.Base.{
  ℕ, ◌≡◌, refl, true, false, Option, none, some, String, List, [], ◌∷◌, arith, string_eq, ◌==◌,
  if◌then◌else◌,
}
use nezha_diff.Waf.{BlockTable, check_ip}
use nezha_diff.Access.{
  config_use_peer_ip, get_real_ip, agent_reaches, web_real_ip, web_reaches, is_allowed,
}

-- With a header of their own, the gates of agents and of browsers let a request pass only if it has
-- that header, an address can be read in it, and the address is not blocked.
pub gates_check :
    {B : Type 0} (t : BlockTable B) (now : ℕ) (ip_of : String → Option String)
    (header peer value : String) (vals : List String)
    → (header == "") ≡ false
    → (header == config_use_peer_ip) ≡ false
    → (agent_reaches t now ip_of header peer (value ∷ vals)
        ≡ elim (ip_of value) [ none ↦ false | some ip ↦ is_allowed (check_ip t now ip) ])
      × (agent_reaches t now ip_of header peer [] ≡ false)
      × (web_reaches t now ip_of header peer value ≡ (
          if value == ""
          then false
          else elim (ip_of value) [ none ↦ false | some ip ↦ is_allowed (check_ip t now ip) ]))
unfolding agent_reaches get_real_ip web_reaches web_real_ip
gates_check t now ip_of header peer value vals some_header not_peer = (
  ground (arith, some_header, not_peer),
  ground (arith, some_header, not_peer),
  ground (arith, some_header, not_peer),
)

-- Set to use the address of the peer, the gate of browsers checks it, while the gate of agents lets
-- every peer pass, whatever is blocked.
pub peer_gates :
    {B : Type 0} (t : BlockTable B) (now : ℕ) (ip_of : String → Option String) (peer value : String)
    (vals : List String)
    → (peer == "") ≡ false
    → (web_reaches t now ip_of config_use_peer_ip peer value ≡ is_allowed (check_ip t now peer))
      × (agent_reaches t now ip_of config_use_peer_ip peer vals ≡ true)
unfolding agent_reaches get_real_ip web_reaches web_real_ip check_ip
peer_gates t now ip_of peer value vals some_peer = (refl, ground (arith, some_peer))
