-- ===== src/FrpClient/Resources.antt =====
-- What the login check holds while it runs: every temporary file, connector and connection that it
-- opened is given back, on each way out.
use frp_provisioner.Prelude.{
  [], ◌++◌, sym, suc, String, Bool, true, false, ◌==◌, ◌∷◌, Option, none, some, ◌≡◌, refl, ap, ◌∙◌,
  eq_refl,
}
use mathlib.Core.List.{append-nil}
use frp_provisioner.Go.{continue-keeps, StringMap, text, M, pure, ◌>>◌}
use frp_provisioner.Kube.{ObjectKey, SecretReference, Client, Call, World, perform, silently}
use frp_provisioner.Api.{FrpServerSpec, default_ca_file_name}
use frp_provisioner.FrpClient.Config.{TlsClientConfig, ClientCommonConfig}
use frp_provisioner.FrpClient.Outside.{Host}
use frp_provisioner.FrpClient.Defs.{
  without_file, one_less, deferring, remove_temp, note_temp, with_temp_file, write_content, load_ca,
  load_files, load_secret, login_answer, login_message, log_in, close_connector, close_conn,
  with_conn, with_connector, try_login, validate_frp_server_config, set_read_deadline,
}
use frp_provisioner.FrpClient.Balance.{
  Holds, IsBalanced, secret_calls, silently-IsBalanced, fail-IsBalanced, pure-IsBalanced,
  return_error-IsBalanced, handle-IsBalanced, then-IsBalanced, if-IsBalanced,
}

module _ (C : Client) (H : Host C.State) where
  deferred_remove-IsBalanced :
      {A : Type 0} (name : String) (m : M (World C) A)
      → IsBalanced m
      → IsBalanced (λ w. deferring C H (remove_temp C H name) m (note_temp C H name w))
  unfolding IsBalanced remove_temp without_file
  deferred_remove-IsBalanced name m hm calls files k n w (c, a, b, z) =
      let (d, x, y, v) =
        hm calls (name ∷ files) k n (note_temp C H name w) (c, ap (λ l. name ∷ l) a, b, z) in
      (d, ap (without_file name) x ∙ rw (eq_refl name) refl, y, v)

  deadline-IsBalanced :
      (conn : H.Conn) (on : Bool) → IsBalanced (λ w. pure tt (set_read_deadline C H conn on w))
  unfolding IsBalanced set_read_deadline
  deadline-IsBalanced conn on calls files k n w h = h

  message-IsBalanced :
      (c : ClientCommonConfig) (hostname : String)
      → IsBalanced {C = C} (λ w. pure (login_message C H c hostname w.store) w)
  unfolding IsBalanced
  message-IsBalanced c hostname calls files k n w h = h

  with_temp_file-IsBalanced :
      {A : Type 0} (p : String) (rest : String → M (World C) A)
      → ((name : String) → IsBalanced (rest name))
      → IsBalanced (with_temp_file C H p rest)
  unfolding with_temp_file
  with_temp_file-IsBalanced p rest hr =
      handle-IsBalanced C _ _ _ (silently-IsBalanced C (H.create_temp p))
        (λ e. fail-IsBalanced C _ _) λ name. deferred_remove-IsBalanced name (rest name) (hr name)

  write_content-IsBalanced :
      (key : ObjectKey) (entry shown file : String) (content : Option String)
      → IsBalanced (write_content C H key entry shown file content)
  unfolding write_content
  write_content-IsBalanced key entry shown file none = fail-IsBalanced C _ _
  write_content-IsBalanced key entry shown file (some content) =
      handle-IsBalanced C _ _ _ (silently-IsBalanced C (H.write_file file content))
        (λ e. fail-IsBalanced C _ _) (pure-IsBalanced C)

  load_ca-IsBalanced :
      (key : ObjectKey) (tls : TlsClientConfig) (rest : TlsClientConfig → M (World C) (Unit {0}))
      → ((t : TlsClientConfig) → IsBalanced (rest t))
      → (content : Option String) → IsBalanced (load_ca C H key tls rest content)
  unfolding load_ca
  load_ca-IsBalanced key tls rest hr none = hr tls
  load_ca-IsBalanced key tls rest hr (some content) = with_temp_file-IsBalanced "ca" _ λ file.
      then-IsBalanced C _ _
        (write_content-IsBalanced key default_ca_file_name default_ca_file_name file (some content))
        (λ _. hr _)

  load_files-IsBalanced :
      (key : ObjectKey) (tls : TlsClientConfig) (rest : TlsClientConfig → M (World C) (Unit {0}))
      → ((t : TlsClientConfig) → IsBalanced (rest t))
      → (entries : StringMap) → IsBalanced (load_files C H key tls rest entries)
  unfolding load_files
  load_files-IsBalanced key tls rest hr entries = with_temp_file-IsBalanced "cert" _ λ cert.
      then-IsBalanced C _ _ (write_content-IsBalanced key _ _ cert _) λ _.
        with_temp_file-IsBalanced "key" _ λ file.
          then-IsBalanced C _ _ (write_content-IsBalanced key _ _ file _)
            λ _. load_ca-IsBalanced key _ rest hr _

  load_secret-Holds :
      (ref : Option SecretReference) (tls : TlsClientConfig)
      (rest : TlsClientConfig → M (World C) (Unit {0}))
      → ((t : TlsClientConfig) → IsBalanced (rest t))
      → (w : World C)
      → Holds
          (w.calls ++ secret_calls ref)
          w.temp_files
          w.connectors
          w.connections
          (load_secret C H ref tls rest w).1
  unfolding load_secret IsBalanced
  load_secret-Holds none tls rest hr w =
      hr tls (w.calls ++ []) w.temp_files w.connectors w.connections w
        (sym (append-nil w.calls), refl, refl, refl)
  load_secret-Holds (some ref) tls rest hr w =
      let key : ObjectKey = record { namespace = ref.namespace; name = ref.name } in
      let P = Holds (w.calls ++ secret_calls (some ref)) w.temp_files w.connectors w.connections in
      continue-keeps P (C.get_secret key w.store).0
        (perform (Call.get_secret key) (C.get_secret key) w).1 _ _ (λ e u h. h)
        (λ entries.
          load_files-IsBalanced key (record tls { enable = some true }) rest hr entries
            (w.calls ++ secret_calls (some ref)) w.temp_files w.connectors w.connections)
        (refl, refl, refl, refl)

  login_answer-IsBalanced : (answer : String) → IsBalanced (login_answer C H answer)
  unfolding login_answer
  login_answer-IsBalanced answer =
      if-IsBalanced C (answer == "") _ _ (pure-IsBalanced C tt)
        (fail-IsBalanced C _ (text (H.errorf answer)))

  log_in-IsBalanced : (c : ClientCommonConfig) (conn : H.Conn) → IsBalanced (log_in C H c conn)
  unfolding log_in
  log_in-IsBalanced c conn = then-IsBalanced C _ _ (silently-IsBalanced C H.hostname) λ hostname.
      then-IsBalanced C _ _ (message-IsBalanced c hostname) λ message.
        then-IsBalanced C _ _ (silently-IsBalanced C (H.set_login c.auth message)) λ login.
          then-IsBalanced C _ _ (silently-IsBalanced C (H.write_msg conn login)) λ _.
            then-IsBalanced C _ _ (deadline-IsBalanced conn true) λ _.
              then-IsBalanced C _ _ (silently-IsBalanced C (H.read_login_resp conn)) λ answer.
                then-IsBalanced C _ _ (deadline-IsBalanced conn false)
                  λ _. login_answer-IsBalanced answer

  opened_conn-IsBalanced :
      (conn : H.Conn) (m : M (World C) (Unit {0}))
      → IsBalanced m
      → IsBalanced (λ w.
        deferring C H (close_conn C H conn) m (record w { connections = suc w.connections }))
  unfolding IsBalanced close_conn one_less
  opened_conn-IsBalanced conn m hm calls files k n w (c, x, y, z) =
      let (d, a, b, e) =
        hm calls files k (suc n) (record w { connections = suc w.connections })
          (c, x, y, ap suc z) in
      (d, a, b, ap one_less e)

  with_conn-IsBalanced :
      (c : H.Connector) (rest : H.Conn → M (World C) (Unit {0}))
      → ((conn : H.Conn) → IsBalanced (rest conn))
      → IsBalanced (with_conn C H c rest)
  unfolding with_conn
  with_conn-IsBalanced c rest hr =
      then-IsBalanced C _ _ (silently-IsBalanced C (H.connect c))
        (λ conn. opened_conn-IsBalanced conn _ (hr conn))

  opened_connector-IsBalanced :
      (c : ClientCommonConfig) (rest : H.Connector → M (World C) (Unit {0}))
      → ((k : H.Connector) → IsBalanced (silently (H.open_connector k) >> rest k))
      → IsBalanced (with_connector C H c rest)
  unfolding IsBalanced with_connector close_connector one_less
  opened_connector-IsBalanced c rest hm calls files k n w (q, x, y, z) =
      let (made, s) = H.new_connector c w.store in
      let (d, a, b, e) =
        hm made calls files (suc k) n (record w { store = s; connectors = suc w.connectors })
          (q, x, ap suc y, z) in
      (d, a, ap one_less b, e)

  with_connector-IsBalanced :
      (c : ClientCommonConfig) (rest : H.Connector → M (World C) (Unit {0}))
      → ((k : H.Connector) → IsBalanced (rest k))
      → IsBalanced (with_connector C H c rest)
  with_connector-IsBalanced c rest hr =
      opened_connector-IsBalanced c rest
        λ k. then-IsBalanced C _ _ (silently-IsBalanced C (H.open_connector k)) (λ _. hr k)

  try_login-IsBalanced : (c : ClientCommonConfig) → IsBalanced (try_login C H c)
  unfolding try_login
  try_login-IsBalanced c =
      then-IsBalanced C _ _
        (return_error-IsBalanced C (H.validate_client_common_config (H.complete c)))
        λ _.
          with_connector-IsBalanced _ _
            λ k. with_conn-IsBalanced k _ (log_in-IsBalanced (H.complete c))

-- Whatever the libraries and the server do, and whether the login check succeeds, fails at some point
-- or panics, it asks the API server for the secret that the object names, if it names one, and for
-- nothing else; it has called Close and os.Remove for each temporary file that it made, of which the
-- errors are dropped, and the process has afterwards as many open connectors and connections as before.
pub validate_frp_server_config-gives_back :
    (C : Client) (H : Host C.State) (spec : FrpServerSpec) (w : World C)
    → ((validate_frp_server_config C H spec w).1.calls
        ≡ w.calls ++ secret_calls spec.transport.tls.secret_ref)
      × ((validate_frp_server_config C H spec w).1.temp_files ≡ w.temp_files)
      × ((validate_frp_server_config C H spec w).1.connectors ≡ w.connectors)
      × ((validate_frp_server_config C H spec w).1.connections ≡ w.connections)
unfolding validate_frp_server_config
validate_frp_server_config-gives_back C H spec w =
    load_secret-Holds C H spec.transport.tls.secret_ref _ _ (λ tls. try_login-IsBalanced C H _) w
