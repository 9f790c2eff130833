-- ===== src/Logger.antt =====
-- pkg/log/factory.go: the logger of a context, the global one, and the making of one from the options.
-- zap is a parameter; a context is what the program stores in it.
use frp_provisioner.Prelude.{String, Bool, List, Option, none, some}
use frp_provisioner.Go.{GoError, M, fail}
use frp_provisioner.Config.{LogOptions, SamplingConfig, EncoderConfig}

-- zap.Config
pub record ZapConfig : Type 0 where
  pub level : String
  pub development : Bool
  pub disable_caller : Bool
  pub disable_stacktrace : Bool
  pub sampling : Option SamplingConfig
  pub encoding : String
  pub encoder_config : EncoderConfig
  pub output_paths : List String
  pub error_output_paths : List String
  pub initial_fields : List String

pub record Zap (S : Type 0) : Type 1 where
  pub Logger : Type 0
  -- Config.Build with options
  pub build : ZapConfig → List String → M S Logger
  -- zap.L and zap.ReplaceGlobals
  pub global : S → Logger
  pub replace_globals : Logger → S → S
  -- Err of the context that a signal to the process cancels
  pub context_error : S → Option GoError

pub record Context (Logger : Type 0) : Type 0 where
  pub logger : Option Logger

abbrev pub background : (Logger : Type 0) → Context Logger
background Logger = record { logger = none }

module _ {S : Type 0} (Z : Zap S) where
  abbrev pub new_context : Context Z.Logger → Z.Logger → Context Z.Logger
  new_context ctx logger = record ctx { logger = some logger }

  abbrev pub stored_or_global : Option Z.Logger → S → Z.Logger
  stored_or_global none s = Z.global s
  stored_or_global (some l) s = l

  -- A nil context has no logger.
  abbrev pub from_context : Option (Context Z.Logger) → S → Z.Logger
  from_context none s = Z.global s
  from_context (some ctx) s = stored_or_global ctx.logger s

  abbrev pub without_context : S → Z.Logger
  without_context = from_context (some (background Z.Logger))

  abbrev pub zap_config : LogOptions → ZapConfig
  zap_config opt = record {
    level = opt.level;
    development = opt.development;
    disable_caller = opt.disable_caller;
    disable_stacktrace = opt.disable_stacktrace;
    sampling = opt.sampling;
    encoding = opt.encoding;
    encoder_config = opt.encoder_config;
    output_paths = opt.output_paths;
    error_output_paths = opt.error_output_paths;
    initial_fields = opt.initial_fields;
  }

  unless_cancelled : Option GoError → LogOptions → M S Z.Logger
  unless_cancelled (some e) opt = fail e
  unless_cancelled none opt = Z.build (zap_config opt) opt.options

  unfoldable pub new_logger : LogOptions → M S Z.Logger
  unfolding unless_cancelled
  new_logger opt s = unless_cancelled (Z.context_error s) opt s
