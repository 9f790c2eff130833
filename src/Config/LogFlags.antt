-- ===== src/Config/LogFlags.antt =====
-- pkg/log/options.go: the flags of the logger's options, and the flag value for a level.
use frp_provisioner.Prelude.{String, List, [], ◌∷◌, ◌++◌, Option, none, some}
use frp_provisioner.Prelude.Int.{ℤ, pos}
use frp_provisioner.Go.{ok, M, lift, ◌>>=◌}
use frp_provisioner.Flags.{
  Flag, bool_var, int_var, string_var, string_array_var, value_var, Readers,
}
use frp_provisioner.Config.Logging.{LogOptions, SamplingConfig}

-- The String of a level that points to the one of the options.
abbrev pub level_string : LogOptions → String
level_string o = o.level

-- Its Set: a text that is no level is an error, and changes nothing.
unfoldable pub set_level : Readers → String → M LogOptions (Unit {0})
set_level P s = lift (P.parse_level s) >>= λ level o. (ok tt, record o { level = level })

-- Through the pointer to the policy, when there is one.
abbrev pub on_sampling :
    (SamplingConfig → SamplingConfig) → Option SamplingConfig → Option SamplingConfig
on_sampling f none = none
on_sampling f (some s) = some (f s)

abbrev pub read_sampling : (SamplingConfig → ℤ) → Option SamplingConfig → ℤ
read_sampling f none = pos 0
read_sampling f (some s) = f s

-- `if o.Sampling != nil`
unfoldable pub sampling_flags : Option SamplingConfig → List (Flag LogOptions)
sampling_flags none = []
sampling_flags (some _) =
    record {
      name = "log.sampling.initial";
      shorthand = "";
      setting =
          int_var (λ o. read_sampling (λ s. s.initial) o.sampling)
            (λ v o. record o { sampling = on_sampling (λ s. record s { initial = v }) o.sampling });
    }
    ∷ record {
      name = "log.sampling.thereafter";
      shorthand = "";
      setting =
          int_var (λ o. read_sampling (λ s. s.thereafter) o.sampling)
            (λ v o. record o {
              sampling = on_sampling (λ s. record s { thereafter = v }) o.sampling;
            });
    }
    ∷ []

unfoldable pub add_log_flags : Readers → LogOptions → List (Flag LogOptions)
unfolding sampling_flags set_level
add_log_flags P o =
    record { name = "log.level"; shorthand = ""; setting = value_var level_string (set_level P) }
    ∷ record {
      name = "log.development";
      shorthand = "";
      setting = bool_var (λ o. o.development) (λ v o. record o { development = v });
    }
    ∷ record {
      name = "log.disable-caller";
      shorthand = "";
      setting = bool_var (λ o. o.disable_caller) (λ v o. record o { disable_caller = v });
    }
    ∷ record {
      name = "log.disable-stacktrace";
      shorthand = "";
      setting = bool_var (λ o. o.disable_stacktrace) (λ v o. record o { disable_stacktrace = v });
    }
    ∷ (sampling_flags o.sampling
        ++ (record {
          name = "log.encoding";
          shorthand = "";
          setting = string_var (λ o. o.encoding) (λ v o. record o { encoding = v });
        }
            ∷ record {
              name = "log.output-paths";
              shorthand = "";
              setting =
                  string_array_var (λ o. o.output_paths) (λ v o. record o { output_paths = v });
            }
            ∷ []))
