-- ===== src/Config.antt =====
-- agent/src/config.rs: the settings, their defaults, their check and the proxy variables.
pub mod Valid
use tasknexus_client_agent.Prelude.{
  ℕ, String, ℤ, pos, negsuc, Bool, true, false, ◌&&◌, not, Option, none, some, List, [], ◌∷◌, ◌++◌,
  Map, insert, text_eq, is_empty, if◌then◌else◌, ◌==◌, or_else,
}
use tasknexus_client_agent.Text.{Text, codes, starts_with, strip_prefix}

pub record AgentConfig : Type 0 where
  pub server : Text
  pub name : Text
  pub workspaces_path : Text
  pub log_level : Text
  pub log_file : Option Text
  pub heartbeat_interval : ℕ
  pub reconnect_interval : ℕ
  pub max_reconnect_attempts : ℤ
  pub task_timeout : ℕ
  pub http_proxy : Option Text
  pub https_proxy : Option Text
  pub no_proxy : Option Text

-- `AgentConfig::default()`; the host's name, if the host gives one, is an argument.
unfoldable pub default_config : Option Text → AgentConfig
default_config hostname = record {
  server = [];
  name = or_else hostname (codes "unknown");
  workspaces_path = codes "./workspaces";
  log_level = codes "INFO";
  log_file = none;
  heartbeat_interval = 30;
  reconnect_interval = 5;
  max_reconnect_attempts = negsuc 0;
  task_timeout = 3600;
  http_proxy = none;
  https_proxy = none;
  no_proxy = none;
}

-- `std::env::var` and `str::parse::<u64>`, as `from_env` uses them.
pub record Env : Type 0 where
  pub var : Text → Option Text
  pub parse_u64 : Text → Option ℕ

abbrev set_server : Option Text → AgentConfig → AgentConfig
set_server none c = c
set_server (some v) c = record c { server = v }

abbrev set_name : Option Text → AgentConfig → AgentConfig
set_name none c = c
set_name (some v) c = record c { name = v }

abbrev set_path : Option Text → AgentConfig → AgentConfig
set_path none c = c
set_path (some v) c = record c { workspaces_path = v }

abbrev set_level : Option Text → AgentConfig → AgentConfig
set_level none c = c
set_level (some v) c = record c { log_level = v }

-- Both `if let`s: an interval that does not parse is passed over.
abbrev set_interval : Env → Option Text → AgentConfig → AgentConfig
set_interval env none c = c
set_interval env (some v) c = elim (env.parse_u64 v) [
  | none ↦ c
  | some n ↦ record c { heartbeat_interval = n }
]

abbrev set_http : Option Text → AgentConfig → AgentConfig
set_http none c = c
set_http (some v) c = record c { http_proxy = some v }

abbrev set_https : Option Text → AgentConfig → AgentConfig
set_https none c = c
set_https (some v) c = record c { https_proxy = some v }

abbrev set_no_proxy : Option Text → AgentConfig → AgentConfig
set_no_proxy none c = c
set_no_proxy (some v) c = record c { no_proxy = some v }

unfoldable pub from_env : Option Text → Env → AgentConfig
unfolding default_config
from_env hostname env =
    let c = default_config hostname in
    let c1 = set_server (env.var (codes "TASKNEXUS_SERVER")) c in
    let c2 = set_name (env.var (codes "TASKNEXUS_AGENT_NAME")) c1 in
    let c3 = set_path (env.var (codes "TASKNEXUS_WORKSPACES_PATH")) c2 in
    let c4 = set_level (env.var (codes "TASKNEXUS_LOG_LEVEL")) c3 in
    let c5 = set_interval env (env.var (codes "TASKNEXUS_HEARTBEAT_INTERVAL")) c4 in
    let c6 = set_http (env.var (codes "HTTP_PROXY")) c5 in
    let c7 = set_https (env.var (codes "HTTPS_PROXY")) c6 in
    set_no_proxy (env.var (codes "NO_PROXY")) c7

-- The errors of `validate`, in the order in which it pushes them.
unfoldable pub errors : AgentConfig → List Text
errors c =
    (if is_empty c.server then codes "Server URL is required" ∷ [] else [])
    ++ ((if is_empty c.name then codes "Agent name is required" ∷ [] else [])
        ++ (if not (is_empty c.server)
              && (not (starts_with (codes "ws://") c.server)
                  && not (starts_with (codes "wss://") c.server))
            then codes "Server URL must start with ws:// or wss://" ∷ []
            else []))

pub data Validation : Type 0 where
  valid : Validation
  invalid : List Text → Validation

unfoldable pub validate : AgentConfig → Validation
unfolding errors
validate c = if is_empty (errors c) then valid else invalid (errors c)

abbrev insert_both : String → String → Option Text → Map Text Text → Map Text Text
insert_both upper lower none env = env
insert_both upper lower (some proxy) env =
    insert (codes lower) proxy (insert (codes upper) proxy env)

unfoldable pub proxy_env : AgentConfig → Map Text Text
proxy_env c = insert_both "NO_PROXY" "no_proxy" c.no_proxy (
    insert_both "HTTPS_PROXY" "https_proxy" c.https_proxy
      (insert_both "HTTP_PROXY" "http_proxy" c.http_proxy []))
