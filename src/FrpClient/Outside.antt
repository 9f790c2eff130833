-- ===== src/FrpClient/Outside.antt =====
-- What ValidateFrpServerConfig uses outside the API server: temporary files, the clock, the host and
-- the frp client library. All act on the state of the client, or are functions.
use frp_provisioner.Prelude.{ℕ, String, Bool, Option}
use frp_provisioner.Prelude.Int.{ℤ}
use frp_provisioner.Go.{GoError, M}
use frp_provisioner.FrpClient.Config.{AuthClientConfig, ClientCommonConfig}

-- `msg.Login`; SetLogin fills in the rest.
pub record Login : Type 0 where
  pub version : String
  pub hostname : String
  pub os : String
  pub arch : String
  pub user : String
  pub timestamp : ℕ
  pub pool_count : ℤ
  pub privilege_key : String

pub record Host (S : Type 0) : Type 1 where
  -- os.CreateTemp in the directory for temporary files: the name
  pub create_temp : String → M S String
  pub write_file : String → String → M S (Unit {0})
  pub close_file : String → M S (Unit {0})
  -- os.Remove
  pub remove_file : String → M S (Unit {0})
  pub hostname : M S String
  -- time.Now().Unix
  pub unix_time : S → ℕ
  -- metav1.NewTime(time.Now())
  pub now : S → String
  -- fmt.Errorf of a format and no arguments
  pub errorf : String → String
  pub version_full : String
  pub os : String
  pub arch : String
  -- ClientCommonConfig.Complete and validation.ValidateClientCommonConfig
  pub complete : ClientCommonConfig → ClientCommonConfig
  pub validate_client_common_config : ClientCommonConfig → Option GoError
  -- auth.NewAuthSetter(config).SetLogin
  pub set_login : AuthClientConfig → Login → M S Login
  pub Connector : Type 0
  pub Conn : Type 0
  pub new_connector : ClientCommonConfig → S → Connector × S
  pub open_connector : Connector → M S (Unit {0})
  pub connect : Connector → M S Conn
  pub close_connector : Connector → S → S
  pub close_conn : Conn → S → S
  pub write_msg : Conn → Login → M S (Unit {0})
  -- the read deadline, whose error is dropped: true for ten seconds from now, false for none
  pub set_read_deadline : Conn → Bool → S → S
  -- the Error of the msg.LoginResp that was read
  pub read_login_resp : Conn → M S String
