-- ===== src/MuteLabel.antt =====
-- The labels of `NotificationMuteLabel` in service/singleton/notification.go: a constructor for each
-- method, which stands for the text that the method prints.
use nezha_diff.Base.{ℕ, String}

pub data MuteLabel : Type 0 where
  ip_changed service_latency_min service_latency_max service_state_changed : ℕ → MuteLabel
  server_incident server_incident_resolved : ℕ → ℕ → MuteLabel
  service_tls : ℕ → String → MuteLabel
