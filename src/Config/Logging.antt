-- ===== src/Config/Logging.antt =====
-- pkg/log/options.go: the options of the logger. A function of zap that the options name is kept by its
-- name, and so is a level; fields of zap's records that the program never touches are left out.
use frp_provisioner.Prelude.{String, Bool, false, List, [], ◌∷◌, Option, none, some, ◌==◌, is_empty}
use frp_provisioner.Prelude.Int.{ℤ, pos}
use frp_provisioner.Go.{GoError, note_if}

pub record SamplingConfig : Type 0 where
  pub initial : ℤ
  pub thereafter : ℤ

pub record EncoderConfig : Type 0 where
  pub time_key : String
  pub level_key : String
  pub name_key : String
  pub caller_key : String
  pub function_key : String
  pub message_key : String
  pub stacktrace_key : String
  pub line_ending : String
  pub encode_level : String
  pub encode_time : String
  pub encode_duration : String
  pub encode_caller : String

pub record LogOptions : Type 0 where
  pub options : List String
  pub level : String
  pub development : Bool
  pub disable_caller : Bool
  pub disable_stacktrace : Bool
  pub sampling : Option SamplingConfig
  pub encoding : String
  pub encoder_config : EncoderConfig
  pub output_paths : List String
  pub error_output_paths : List String
  pub initial_fields : List String

-- A nil policy is replaced by a new one, and both fields are set.
unfoldable pub default_sampling : Option SamplingConfig → SamplingConfig
default_sampling none = record { initial = pos 100; thereafter = pos 100 }
default_sampling (some s) = record s { initial = pos 100; thereafter = pos 100 }

abbrev pub default_encoder : EncoderConfig
default_encoder = record {
  time_key = "ts";
  level_key = "level";
  name_key = "logger";
  caller_key = "caller";
  function_key = "";
  message_key = "msg";
  stacktrace_key = "stacktrace";
  line_ending = "\n";
  encode_level = "CapitalLevelEncoder";
  encode_time = "RFC3339NanoTimeEncoder";
  encode_duration = "StringDurationEncoder";
  encode_caller = "ShortCallerEncoder";
}

unfoldable pub set_log_defaults : LogOptions → LogOptions
unfolding default_sampling
set_log_defaults o = record o {
  options = [];
  level = "debug";
  encoding = "console";
  sampling = some (default_sampling o.sampling);
  encoder_config = default_encoder;
  output_paths = "stderr" ∷ [];
  error_output_paths = "stderr" ∷ [];
}

unfoldable pub validate_log : LogOptions → Option GoError
unfolding note_if
validate_log o =
    let err = note_if (o.encoding == "") "log.encoding is required" none in
    let err = note_if (is_empty o.output_paths) "log.outputPaths is required" err in
    note_if (is_empty o.error_output_paths) "log.errorOutputPaths is required" err

abbrev blank_encoder : EncoderConfig
blank_encoder = record {
  time_key = "";
  level_key = "";
  name_key = "";
  caller_key = "";
  function_key = "";
  message_key = "";
  stacktrace_key = "";
  line_ending = "";
  encode_level = "";
  encode_time = "";
  encode_duration = "";
  encode_caller = "";
}

-- NewOptions; the level is the zero value of zap.
abbrev pub new_options : LogOptions
new_options = record {
  options = [];
  level = "";
  development = false;
  disable_caller = false;
  disable_stacktrace = false;
  sampling = some (record { initial = pos 0; thereafter = pos 0 });
  encoding = "";
  encoder_config = blank_encoder;
  output_paths = [];
  error_output_paths = [];
  initial_fields = [];
}
