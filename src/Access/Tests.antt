-- ===== src/Access/Tests.antt =====
-- A table that blocks one address, and a header with a list of two.
use nezha_diff.Base.{
  ◌≡◌, refl, true, Option, none, some, String, [], string_eq, ◌==◌, if◌then◌else◌,
}
use nezha_diff.Waf.{BlockTable, check_ip}
use nezha_diff.Access.{
  config_use_peer_ip, last_part, get_ip_from_header, agent_reaches, web_reaches, is_allowed,
}
use nezha_diff.Access.Gates.{peer_gates}

abbrev table : BlockTable String
table = record {
  parse = λ s. some s;
  latest = λ ip. some (if ip == "6.6.6.6" then some 100 else none);
  total = λ ip. some 3;
}

abbrev read : String → Option String
read = get_ip_from_header (λ s. s) some

last_of_two : read "1.1.1.1,6.6.6.6" ≡ some "6.6.6.6"
unfolding get_ip_from_header last_part
last_of_two = refl

peer_gates_example :
    (web_reaches table 150 read config_use_peer_ip "6.6.6.6" ""
      ≡ is_allowed (check_ip table 150 "6.6.6.6"))
    × (agent_reaches table 150 read config_use_peer_ip "6.6.6.6" [] ≡ true)
peer_gates_example = peer_gates table 150 read "6.6.6.6" "" [] refl
