-- ===== src/Host/Tests.antt =====
-- A state with one temperature: the conversions of model/host.go at it.
use nezha_diff.Base.{ℕ, ◌≡◌, refl, [], ◌∷◌, string_eq}
use nezha_diff.Host.{HostState, Host, join_ip}

abbrev pub warm : HostState ℕ
warm = record {
  cpu = 1;
  mem_used = 50;
  swap_used = 0;
  disk_used = 10;
  net_in_transfer = 7;
  net_out_transfer = 9;
  net_in_speed = 4;
  net_out_speed = 5;
  uptime = 1;
  load1 = 1;
  load5 = 2;
  load15 = 3;
  tcp_conn_count = 2;
  udp_conn_count = 2;
  process_count = 3;
  temperatures = record { name = "cpu0"; temperature = 61 } ∷ [];
  gpu = 12 ∷ [];
}

abbrev pub small_host : Host
small_host = record {
  platform = "linux";
  platform_version = "12";
  cpu = "one" ∷ [];
  mem_total = 100;
  disk_total = 100;
  swap_total = 0;
  arch = "amd64";
  virtualization = "kvm";
  boot_time = 1;
  version = "1.0";
  gpu = [];
}

join_ip_both : join_ip (record { ipv4_addr = "1.2.3.4"; ipv6_addr = "::1" }) ≡ "1.2.3.4/::1"
unfolding join_ip
join_ip_both = refl
