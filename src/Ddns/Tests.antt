-- ===== src/Ddns/Tests.antt =====
-- One profile with three attempts, of which the second succeeds.
use nezha_diff.Base.{ℕ, ◌≡◌, refl, Bool, true, false, String, [], ◌∷◌, nat_eq, nat_beq}
use nezha_diff.GoMap.{lookup}
use nezha_diff.Ddns.{
  DdnsClass, DdnsForm, Provider, dummy, update_domain, update_domains, retry, zero_profile,
}
use nezha_diff.Ddns.Profiles.{AreBounded}

abbrev no_profiles : DdnsClass
no_profiles = record { list = []; sorted_list = [] }

no_profiles-AreBounded : AreBounded no_profiles
unfolding lookup
no_profiles-AreBounded k p l = cc l

abbrev form : DdnsForm
form = record {
  max_retries = 3;
  enable_ipv4 = true;
  enable_ipv6 = false;
  name = "home";
  provider = "dummy";
  domains = "a.example" ∷ [];
  access_id = "";
  access_secret = "";
  webhook_url = "";
  webhook_method = 1;
  webhook_request_type = 1;
  webhook_request_body = "";
  webhook_headers = "";
}

abbrev home : Provider
home = record {
  ddns_profile = record zero_profile { max_retries = 3; domains = "a.example" ∷ [] };
  ip_addrs = record { ipv4_addr = "1.2.3.4"; ipv6_addr = "" };
  setter = dummy;
}

abbrev second_time : String → ℕ → Bool
second_time domain n = nat_beq n 1

two_attempts : update_domain second_time home [] ≡ ("a.example", (2, true)) ∷ []
unfolding update_domain update_domains retry
two_attempts = refl
