-- ===== src/ServerClass/Order.antt =====
-- The order in which service/singleton/server.go shows the servers.
use nezha_diff.Base.{List}
use nezha_diff.ServerClass.{ServerClass}
