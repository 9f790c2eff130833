-- ===== src/Tests/Options.antt =====
-- The configuration at concrete options.
use frp_provisioner.Prelude.{String, List, none, ◌≡◌, ◌↔◌}
use frp_provisioner.Go.{ok}
use frp_provisioner.Kube.Samples.{libraries, libraries-IsLawful}
use frp_provisioner.Config.{
  new_agent_configuration, set_agent_defaults, validate_agent, validate_agent-none, Configuration,
  new_configuration, validate_log, required_errors, set_defaults, validate, IsLogged, IsTemplate,
  set_defaults-Complete, validate-eq-ok,
}

abbrev pub temp_path : List String → String
temp_path _ = "/tmp/k8s"

abbrev pub started : Configuration
started = set_defaults libraries temp_path new_configuration

set_defaults-Complete_example :
    (set_defaults libraries temp_path started ≡ started)
    × (validate_log started.log ≡ none)
    × (required_errors libraries started.manager ≡ none)
set_defaults-Complete_example =
    set_defaults-Complete libraries libraries-IsLawful temp_path new_configuration

validate-eq-ok_example :
    (validate libraries started ≡ ok none)
    ↔ (IsLogged started.log × IsTemplate libraries started.manager.pod_template)
validate-eq-ok_example = validate-eq-ok libraries started

validate_agent-none_example :
    ((validate_agent new_agent_configuration ≡ none) ↔ IsLogged new_agent_configuration.log)
    × (validate_agent (set_agent_defaults new_agent_configuration) ≡ none)
validate_agent-none_example = validate_agent-none new_agent_configuration
