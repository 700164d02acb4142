-- ===== src/Host/Messages.antt =====
-- The messages State, Host and GeoIP of proto/nezha.proto, as the Go code generated from it declares
-- them in proto/nezha.pb.go. `F` stands for float64.
use nezha_diff.Base.{ℕ, Bool, Option, String, List}

pub record PbSensorTemperature (F : Type 0) : Type 0 where
  pub name : String
  pub temperature : F

pub record PbState (F : Type 0) : Type 0 where
  pub cpu : F
  pub mem_used : ℕ
  pub swap_used : ℕ
  pub disk_used : ℕ
  pub net_in_transfer : ℕ
  pub net_out_transfer : ℕ
  pub net_in_speed : ℕ
  pub net_out_speed : ℕ
  pub uptime : ℕ
  pub load1 : F
  pub load5 : F
  pub load15 : F
  pub tcp_conn_count : ℕ
  pub udp_conn_count : ℕ
  pub process_count : ℕ
  pub temperatures : List (PbSensorTemperature F)
  pub gpu : List F

pub record PbHost : Type 0 where
  pub platform : String
  pub platform_version : String
  pub cpu : List String
  pub mem_total : ℕ
  pub disk_total : ℕ
  pub swap_total : ℕ
  pub arch : String
  pub virtualization : String
  pub boot_time : ℕ
  pub version : String
  pub gpu : List String

pub record PbIp : Type 0 where
  pub ipv4 : String
  pub ipv6 : String

pub record PbGeoIp : Type 0 where
  pub use6 : Bool
  pub ip : Option PbIp
  pub country_code : String
  pub dashboard_boot_time : ℕ
