-- ===== src/Manager/Options.antt =====
-- The options of the two servers and of the manager. A configuration of TLS has the one field that the
-- code writes.
use nautikus.Prelude.{String, Bool, true, false, not, ◌==◌, string_eq, if◌then◌else◌, List, [], ◌∷◌}

pub record Flags : Type 0 where
  pub metrics_addr : String
  pub probe_addr : String
  pub enable_leader_election : Bool
  pub secure_metrics : Bool
  pub webhook_cert_path : String
  pub webhook_cert_name : String
  pub webhook_cert_key : String
  pub metrics_cert_path : String
  pub metrics_cert_name : String
  pub metrics_cert_key : String
  pub enable_http2 : Bool

abbrev pub default_flags : Flags
default_flags = record {
  metrics_addr = "0";
  probe_addr = ":8081";
  enable_leader_election = false;
  secure_metrics = true;
  webhook_cert_path = "";
  webhook_cert_name = "tls.crt";
  webhook_cert_key = "tls.key";
  metrics_cert_path = "";
  metrics_cert_name = "tls.crt";
  metrics_cert_key = "tls.key";
  enable_http2 = false;
}

pub record TlsConfig : Type 0 where
  pub next_protos : List String

-- `webhook.Options`; a field that is not set is empty.
pub record WebhookOptions : Type 0 where
  pub tls_opts : List (TlsConfig → TlsConfig)
  pub cert_dir : String
  pub cert_name : String
  pub key_name : String

-- `metricsserver.Options`; `filter_provider` says whether requests are authenticated and authorized.
pub record MetricsOptions : Type 0 where
  pub bind_address : String
  pub secure_serving : Bool
  pub tls_opts : List (TlsConfig → TlsConfig)
  pub filter_provider : Bool
  pub cert_dir : String
  pub cert_name : String
  pub key_name : String

pub record ManagerOptions : Type 0 where
  pub metrics : MetricsOptions
  pub webhook_server : WebhookOptions
  pub health_probe_bind_address : String
  pub leader_election : Bool
  pub leader_election_id : String

abbrev pub disable_http2 : TlsConfig → TlsConfig
disable_http2 c = record c { next_protos = "http/1.1" ∷ [] }

unfoldable pub tls_opts : Flags → List (TlsConfig → TlsConfig)
tls_opts flags = if not flags.enable_http2 then disable_http2 ∷ [] else []

abbrev webhook_base : Flags → WebhookOptions
webhook_base flags = record {
  tls_opts = tls_opts flags;
  cert_dir = "";
  cert_name = "";
  key_name = "";
}

unfoldable pub webhook_server_options : Flags → WebhookOptions
unfolding tls_opts
webhook_server_options flags =
    if not (flags.webhook_cert_path == "")
    then record (webhook_base flags) {
      cert_dir = flags.webhook_cert_path;
      cert_name = flags.webhook_cert_name;
      key_name = flags.webhook_cert_key;
    }
    else webhook_base flags

abbrev metrics_base : Flags → MetricsOptions
metrics_base flags = record {
  bind_address = flags.metrics_addr;
  secure_serving = flags.secure_metrics;
  tls_opts = tls_opts flags;
  filter_provider = false;
  cert_dir = "";
  cert_name = "";
  key_name = "";
}

abbrev with_filter : Flags → MetricsOptions → MetricsOptions
with_filter flags options =
    if flags.secure_metrics then record options { filter_provider = true } else options

unfoldable pub metrics_server_options : Flags → MetricsOptions
unfolding tls_opts
metrics_server_options flags =
    let options = with_filter flags (metrics_base flags) in
    if not (flags.metrics_cert_path == "")
    then record options {
      cert_dir = flags.metrics_cert_path;
      cert_name = flags.metrics_cert_name;
      key_name = flags.metrics_cert_key;
    }
    else options

unfoldable pub manager_options : Flags → ManagerOptions
unfolding webhook_server_options metrics_server_options
manager_options flags = record {
  metrics = metrics_server_options flags;
  webhook_server = webhook_server_options flags;
  health_probe_bind_address = flags.probe_addr;
  leader_election = flags.enable_leader_election;
  leader_election_id = "0403ed10.nautikus.io";
}
