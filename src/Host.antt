-- ===== src/Host.antt =====
-- model/host.go, with the messages of proto/nezha.proto that its conversions read and write. `F`
-- stands for float64. A pointer to a message that may be nil is an `Option`; a nil slice is the
-- empty one.
pub mod Messages
pub mod Tests
use nezha_diff.Base.{
  ℕ, Bool, true, false, not, ◌&&◌, Option, none, some, String, List, [], ◌∷◌, string_eq, ◌==◌,
  if◌then◌else◌,
}
use Prim.Native.String.{◌++◌}
use nezha_diff.Host.Messages.{PbSensorTemperature, PbState, PbHost, PbIp, PbGeoIp}

pub record SensorTemperature (F : Type 0) : Type 0 where
  pub name : String
  pub temperature : F

pub record HostState (F : Type 0) : Type 0 where
  pub cpu : F
  pub mem_used : ℕ
  pub swap_used : ℕ
  pub disk_used : ℕ
  pub net_in_transfer : ℕ
  pub net_out_transfer : ℕ
  pub net_in_speed : ℕ
  pub net_out_speed : ℕ
  pub uptime : ℕ
  pub load1 : F
  pub load5 : F
  pub load15 : F
  pub tcp_conn_count : ℕ
  pub udp_conn_count : ℕ
  pub process_count : ℕ
  pub temperatures : List (SensorTemperature F)
  pub gpu : List F

pub record Host : Type 0 where
  pub platform : String
  pub platform_version : String
  pub cpu : List String
  pub mem_total : ℕ
  pub disk_total : ℕ
  pub swap_total : ℕ
  pub arch : String
  pub virtualization : String
  pub boot_time : ℕ
  pub version : String
  pub gpu : List String

pub record Ip : Type 0 where
  pub ipv4_addr : String
  pub ipv6_addr : String

pub record GeoIp : Type 0 where
  pub ip : Ip
  pub country_code : String

module _ {F : Type 0} where
  -- The loops over the temperatures of PB and PB2State.
  unfoldable pub temperatures_pb : List (SensorTemperature F) → List (PbSensorTemperature F)
  temperatures_pb [] = []
  temperatures_pb (t ∷ ts) =
      record { name = t.name; temperature = t.temperature } ∷ temperatures_pb ts

  unfoldable pub pb_temperatures : List (PbSensorTemperature F) → List (SensorTemperature F)
  pb_temperatures [] = []
  pb_temperatures (t ∷ ts) =
      record { name = t.name; temperature = t.temperature } ∷ pb_temperatures ts

  -- HostState.PB
  unfoldable pub state_pb : HostState F → PbState F
  state_pb s = record {
    cpu = s.cpu;
    mem_used = s.mem_used;
    swap_used = s.swap_used;
    disk_used = s.disk_used;
    net_in_transfer = s.net_in_transfer;
    net_out_transfer = s.net_out_transfer;
    net_in_speed = s.net_in_speed;
    net_out_speed = s.net_out_speed;
    uptime = s.uptime;
    load1 = s.load1;
    load5 = s.load5;
    load15 = s.load15;
    tcp_conn_count = s.tcp_conn_count;
    udp_conn_count = s.udp_conn_count;
    process_count = s.process_count;
    temperatures = temperatures_pb s.temperatures;
    gpu = s.gpu;
  }

  -- PB2State
  unfoldable pub pb_to_state : PbState F → HostState F
  pb_to_state s = record {
    cpu = s.cpu;
    mem_used = s.mem_used;
    swap_used = s.swap_used;
    disk_used = s.disk_used;
    net_in_transfer = s.net_in_transfer;
    net_out_transfer = s.net_out_transfer;
    net_in_speed = s.net_in_speed;
    net_out_speed = s.net_out_speed;
    uptime = s.uptime;
    load1 = s.load1;
    load5 = s.load5;
    load15 = s.load15;
    tcp_conn_count = s.tcp_conn_count;
    udp_conn_count = s.udp_conn_count;
    process_count = s.process_count;
    temperatures = pb_temperatures s.temperatures;
    gpu = s.gpu;
  }

-- Host.PB
unfoldable pub host_pb : Host → PbHost
host_pb h = record {
  platform = h.platform;
  platform_version = h.platform_version;
  cpu = h.cpu;
  mem_total = h.mem_total;
  disk_total = h.disk_total;
  swap_total = h.swap_total;
  arch = h.arch;
  virtualization = h.virtualization;
  boot_time = h.boot_time;
  version = h.version;
  gpu = h.gpu;
}

-- Host.Filter: what it leaves out is the empty string.
unfoldable pub filter : Host → Host
filter h = record {
  platform = h.platform;
  platform_version = "";
  cpu = h.cpu;
  mem_total = h.mem_total;
  disk_total = h.disk_total;
  swap_total = h.swap_total;
  arch = h.arch;
  virtualization = h.virtualization;
  boot_time = h.boot_time;
  version = "";
  gpu = h.gpu;
}

-- PB2Host
unfoldable pub pb_to_host : PbHost → Host
pb_to_host h = record {
  platform = h.platform;
  platform_version = h.platform_version;
  cpu = h.cpu;
  mem_total = h.mem_total;
  disk_total = h.disk_total;
  swap_total = h.swap_total;
  arch = h.arch;
  virtualization = h.virtualization;
  boot_time = h.boot_time;
  version = h.version;
  gpu = h.gpu;
}

-- IP.Join
unfoldable pub join_ip : Ip → String
join_ip p =
    if not (p.ipv4_addr == "") && not (p.ipv6_addr == "")
    then p.ipv4_addr ++ "/" ++ p.ipv6_addr
    else if not (p.ipv4_addr == "")
    then p.ipv4_addr
    else p.ipv6_addr

-- PB2GeoIP: the getters of a nil message return the zero value.
unfoldable pub pb_to_geo_ip : PbGeoIp → GeoIp
pb_to_geo_ip p = elim p.ip [
  | none ↦ record { ip = record { ipv4_addr = ""; ipv6_addr = "" }; country_code = "" }
  | some pb_ip ↦ record {
    ip = record { ipv4_addr = pb_ip.ipv4; ipv6_addr = pb_ip.ipv6 };
    country_code = "";
  }
]
