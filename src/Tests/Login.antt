-- ===== src/Tests/Login.antt =====
-- A host and frp servers that accept, and refuse, the login.
use frp_provisioner.Prelude.{◌<>◌, none}
use frp_provisioner.Go.{ok}
use frp_provisioner.FrpClient.{Host}
use frp_provisioner.Tests.Cluster.{State}

-- A host whose every call succeeds, and a server that accepts the login.
abbrev pub host : Host State
host = record {
  create_temp = λ pattern_text s. (ok (pattern_text <> "-1"), s);
  write_file = λ name content s. (ok tt, s);
  close_file = λ name s. (ok tt, s);
  remove_file = λ name s. (ok tt, s);
  hostname = λ s. (ok "manager-0", s);
  unix_time = λ s. 0;
  now = λ s. "12:00";
  errorf = λ t. t;
  version_full = "0.58.1";
  os = "linux";
  arch = "amd64";
  complete = λ c. c;
  validate_client_common_config = λ c. none;
  set_login = λ a l s. (ok l, s);
  Connector = Unit {0};
  Conn = Unit {0};
  new_connector = λ c s. (tt, s);
  open_connector = λ k s. (ok tt, s);
  connect = λ k s. (ok tt, s);
  close_connector = λ k s. s;
  close_conn = λ c s. s;
  write_msg = λ c l s. (ok tt, s);
  set_read_deadline = λ c on s. s;
  read_login_resp = λ c s. (ok "", s);
}

-- The server refuses the token.
abbrev pub strict_host : Host State
strict_host = record host { read_login_resp = λ c s. (ok "token mismatch", s) }
