-- ===== src/FrpClient/Defs.antt =====
-- pkg/utils/frpclient/validate.go: ValidatePort, and ValidateFrpServerConfig, which logs in to an frp
-- server with the configuration of an object. Log lines are left out.
use frp_provisioner.Prelude.{
  ℕ, zero, suc, String, ◌<>◌, Bool, true, false, ◌&&◌, List, [], ◌∷◌, Option, none, some, ◌==◌,
  if◌then◌else◌,
}
use frp_provisioner.Prelude.Int.{ℤ, pos, le_int}
use frp_provisioner.Go.{
  StringMap, lookup, GoError, text, error_text, wrap, errorf_w, M, pure, fail, handle, return_error,
  ◌>>=◌, ◌>>◌,
}
use frp_provisioner.Kube.{ObjectKey, SecretReference, Client, Call, World, perform, silently}
use frp_provisioner.Api.{
  FrpServerSpec, default_cert_file_name, default_key_file_name, default_ca_file_name,
}
use frp_provisioner.FrpClient.Config.{ClientCommonConfig, TlsClientConfig, common_config, with_tls}
use frp_provisioner.FrpClient.Outside.{Host, Login}

-- An integer in decimal is a parameter, since it stands only in this text.
unfoldable pub validate_port : (ℤ → String) → ℤ → Option GoError
validate_port decimal port =
    if le_int (pos 0) port && le_int port (pos 65535)
    then none
    else some (text ("port number " <> decimal port <> " must be in the range 0..65535"))

-- `{Namespace:… Name:…}` by `%+v` is the key's own text, namespace/name.
abbrev key_text : ObjectKey → String
key_text k = k.namespace <> "/" <> k.name

-- The first of this name goes.
unfoldable pub without_file : String → List String → List String
without_file n [] = []
without_file n (m ∷ ms) = let rest = without_file n ms in if m == n then ms else m ∷ rest

-- One of a counted resource is given back.
unfoldable pub one_less : ℕ → ℕ
one_less zero = zero
one_less (suc n) = n

-- `TLS` with the files that are written so far
abbrev pub with_cert_file : TlsClientConfig → String → TlsClientConfig
with_cert_file t file = record t { cert_file = file }

abbrev pub with_key_file : TlsClientConfig → String → TlsClientConfig
with_key_file t file = record t { key_file = file }

abbrev pub with_ca_file : TlsClientConfig → String → TlsClientConfig
with_ca_file t file = record t { trusted_ca_file = file }

module _ (C : Client) (H : Host C.State) where
  -- Run the body, then the deferred call, also after an error or a panic.
  abbrev pub deferring : {A : Type 0} → (World C → World C) → M (World C) A → M (World C) A
  deferring cleanup body w = let (r, u) = body w in (r, cleanup u)

  -- `_ = f.Close(); _ = os.Remove(f.Name())`: the errors are dropped, and whether they succeed is only in
  -- the state of the host. What `temp_files` keeps is for which files they were called.
  unfoldable pub remove_temp : String → World C → World C
  unfolding without_file
  remove_temp name w = record w {
    store = (H.remove_file name (H.close_file name w.store).1).1;
    temp_files = without_file name w.temp_files;
  }

  abbrev pub note_temp : String → World C → World C
  note_temp name w = record w { temp_files = name ∷ w.temp_files }

  -- A temporary file, which is there until the function returns: the rest is given its name.
  unfoldable pub with_temp_file : {A : Type 0} → String → (String → M (World C) A) → M (World C) A
  unfolding remove_temp
  with_temp_file pattern_text rest =
      handle (silently (H.create_temp pattern_text))
        (λ e. fail (wrap ("unable create temp file, got: '" <> error_text e <> "'") e))
        λ name w. deferring (remove_temp name) (rest name) (note_temp name w)

  -- A file of the secret written to a temporary one; the error of a missing file wraps nil. The text of
  -- a failed write names `shown`.
  unfoldable pub write_content :
      ObjectKey → String → String → String → Option String → M (World C) (Unit {0})
  write_content key entry shown file none = fail (
      text ("file '" <> entry <> "' not found on secret '" <> key_text key <> "', got: %!w(<nil>)"))
  write_content key entry shown file (some content) =
      handle (silently (H.write_file file content))
        (λ e. fail (
          errorf_w
            ("file '"
              <> shown
              <> "' has incorrect content on secret '"
              <> key_text key
              <> "', got: ")
            e))
        pure

  -- The part for the CA, which the secret may lack; then the rest with the configuration.
  unfoldable pub load_ca :
      ObjectKey
      → TlsClientConfig
      → (TlsClientConfig → M (World C) (Unit {0}))
      → Option String
      → M (World C) (Unit {0})
  unfolding with_temp_file write_content
  load_ca key tls rest none = rest tls
  load_ca key tls rest (some content) = with_temp_file "ca" λ file.
      write_content key default_ca_file_name default_ca_file_name file (some content)
      >> rest (with_ca_file tls file)

  -- The three files of the secret.
  unfoldable pub load_files :
      ObjectKey
      → TlsClientConfig
      → (TlsClientConfig → M (World C) (Unit {0}))
      → StringMap
      → M (World C) (Unit {0})
  unfolding with_temp_file write_content load_ca lookup
  load_files key tls rest entries = with_temp_file "cert" λ cert.
      write_content key default_cert_file_name default_cert_file_name cert
        (lookup default_cert_file_name entries)
      >> with_temp_file "key" λ file.
        write_content key default_key_file_name default_cert_file_name file
          (lookup default_key_file_name entries)
        >> load_ca key (with_key_file (with_cert_file tls cert) file) rest
            (lookup default_ca_file_name entries)

  -- The branch for a secret, in front of the rest.
  unfoldable pub load_secret :
      Option SecretReference
      → TlsClientConfig
      → (TlsClientConfig → M (World C) (Unit {0}))
      → M (World C) (Unit {0})
  unfolding load_files
  load_secret none tls rest = rest tls
  load_secret (some ref) tls rest =
      let key : ObjectKey = record { namespace = ref.namespace; name = ref.name } in
      handle (perform (Call.get_secret key) (C.get_secret key))
        (λ e.
          fail
            (wrap ("unable get secret '" <> key_text key <> "', got: '" <> error_text e <> "'") e))
        (load_files key (record tls { enable = some true }) rest)

  abbrev pub login_message : ClientCommonConfig → String → C.State → Login
  login_message c hostname s = record {
    version = H.version_full;
    hostname = hostname;
    os = H.os;
    arch = H.arch;
    user = c.user;
    timestamp = H.unix_time s;
    pool_count = c.transport.pool_count;
    privilege_key = "";
  }

  -- The answer's own error is the format of the error that is returned.
  unfoldable pub login_answer : String → M (World C) (Unit {0})
  login_answer answer = if answer == "" then pure tt else fail (text (H.errorf answer))

  unfoldable pub set_read_deadline : H.Conn → Bool → World C → World C
  set_read_deadline conn on w = record w { store = H.set_read_deadline conn on w.store }

  -- The login over an open connection.
  unfoldable pub log_in : ClientCommonConfig → H.Conn → M (World C) (Unit {0})
  unfolding login_answer set_read_deadline
  log_in c conn = do
    hostname ← silently H.hostname
    message ← λ w. pure (login_message c hostname w.store) w
    login ← silently (H.set_login c.auth message)
    _ ← silently (H.write_msg conn login)
    _ ← λ w. pure tt (set_read_deadline conn true w)
    answer ← silently (H.read_login_resp conn)
    _ ← λ w. pure tt (set_read_deadline conn false w)
    login_answer answer

  unfoldable pub close_connector : H.Connector → World C → World C
  unfolding one_less
  close_connector k w = record w {
    store = H.close_connector k w.store;
    connectors = one_less w.connectors;
  }

  unfoldable pub close_conn : H.Conn → World C → World C
  unfolding one_less
  close_conn conn w = record w {
    store = H.close_conn conn w.store;
    connections = one_less w.connections;
  }

  -- Connect, with the close of the connection deferred.
  unfoldable pub with_conn :
      H.Connector → (H.Conn → M (World C) (Unit {0})) → M (World C) (Unit {0})
  unfolding close_conn
  with_conn k rest = silently (H.connect k) >>= λ conn w.
      deferring (close_conn conn) (rest conn) (record w { connections = suc w.connections })

  -- NewConnector, with its Close deferred, and Open.
  unfoldable pub with_connector :
      ClientCommonConfig → (H.Connector → M (World C) (Unit {0})) → M (World C) (Unit {0})
  unfolding close_connector
  with_connector c rest w =
      let (k, s) = H.new_connector c w.store in
      deferring (close_connector k) (silently (H.open_connector k) >> rest k)
        (record w { store = s; connectors = suc w.connectors })

  -- The validation behind `Complete`, and the login.
  unfoldable pub try_login : ClientCommonConfig → M (World C) (Unit {0})
  unfolding with_connector with_conn log_in
  try_login c =
      let done = H.complete c in
      return_error (H.validate_client_common_config done)
      >> with_connector done (λ k. with_conn k (log_in done))

  unfoldable pub validate_frp_server_config : FrpServerSpec → M (World C) (Unit {0})
  unfolding common_config load_secret try_login
  validate_frp_server_config spec =
      let config = common_config spec in
      load_secret spec.transport.tls.secret_ref config.transport.tls
        (λ tls. try_login (with_tls config tls))
