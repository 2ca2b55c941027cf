-- ===== src/Config.antt =====
-- internal/config/config.go: the baseline of the configuration, and what the environment overrides;
-- and internal/mcpserver/server.go: the server's own defaults, and the bearer token of a request.
-- The file in YAML and the flags are read by packages that are not part of the repository.
use qnx8_qconn_mcp.Prelude.{
  Bool, true, false, ◌≡◌, refl, [], ◌∷◌, ◌++◌, Bytes, ◌==◌, ◌*◌, ◌^◌, if◌then◌else◌, codes, same, ℤ,
  pos, negsuc, integer, int_syntax, int_range, ParsedInt, atoi,
}

-- A duration is in nanoseconds.
pub record Config : Type 0 where
  pub qconn_host : Bytes
  pub qconn_port : ℤ
  pub timeout : ℤ
  pub bind_addr : Bytes
  pub path : Bytes
  pub token : Bytes
  pub debug_port : ℤ
  pub pdebug_cmd : Bytes
  pub debug_serial : Bytes
  pub debug_baud : ℤ
  pub log_level : Bytes
  pub log_format : Bytes
  pub trace : Bool

abbrev pub default_pdebug_cmd : Bytes
default_pdebug_cmd = codes "on -d pdebug %d </dev/null >/dev/null 2>&1"

-- `Default`
abbrev pub default_config : Config
default_config = record {
  qconn_host = codes "127.0.0.1";
  qconn_port = pos 8000;
  timeout = pos (30 * 10 ^ 9);
  bind_addr = codes "127.0.0.1:8077";
  path = codes "/mcp";
  token = [];
  debug_port = pos 8001;
  pdebug_cmd = default_pdebug_cmd;
  debug_serial = [];
  debug_baud = pos 115200;
  log_level = codes "info";
  log_format = codes "text";
  trace = false;
}

-- A text of the environment, which stands for the one that is configured where it is not empty.
unfoldable pub override : Bytes → Bytes → Bytes
override [] old = old
override (c ∷ v) old = c ∷ v

unfoldable pub or_else : ParsedInt → ℤ → ℤ
or_else (integer z) old = z
or_else int_syntax old = old
or_else (int_range b) old = old

-- A number of the environment; a text that is none changes nothing.
unfoldable pub override_int : Bytes → ℤ → ℤ
override_int [] old = old
override_int (c ∷ v) old = or_else (atoi (c ∷ v)) old

-- `applyEnv`, with `os.Getenv` as its argument.
unfoldable pub apply_env : (Bytes → Bytes) → Config → Config
apply_env getenv cfg = record cfg {
  qconn_host = override (getenv (codes "QCONN_HOST")) cfg.qconn_host;
  qconn_port = override_int (getenv (codes "QCONN_PORT")) cfg.qconn_port;
  bind_addr = override (getenv (codes "MCP_ADDR")) cfg.bind_addr;
  token = override (getenv (codes "MCP_TOKEN")) cfg.token;
  debug_port = override_int (getenv (codes "QCONN_DEBUG_PORT")) cfg.debug_port;
  log_level = override (getenv (codes "LOG_LEVEL")) cfg.log_level;
  trace = if same (getenv (codes "QCONN_TRACE")) (codes "1") then true else cfg.trace;
}

unfoldable pub if_zero : ℤ → ℤ → ℤ
if_zero (pos n) z = if n == 0 then z else pos n
if_zero (negsuc n) z = negsuc n

-- The fields that `New` fills in; the server's configuration is a copy of these fields.
unfoldable pub with_defaults : Config → Config
with_defaults cfg = record cfg {
  path = override cfg.path (codes "/mcp");
  qconn_port = if_zero cfg.qconn_port (pos 8000);
  debug_port = if_zero cfg.debug_port (pos 8001);
  debug_baud = if_zero cfg.debug_baud (pos 115200);
  timeout = if_zero cfg.timeout (pos (30 * 10 ^ 9));
}

-- The command for pdebug, as `client` chooses it.
unfoldable pub pdebug_cmd_of : Config → Bytes
pdebug_cmd_of cfg = override cfg.pdebug_cmd default_pdebug_cmd

-- The test of `withAuth`, of a token and the request's Authorization header.
unfoldable pub is_authorized : Bytes → Bytes → Bool
is_authorized [] got = true
is_authorized (c ∷ token) got = same got (codes "Bearer " ++ c ∷ token)

override-override : (v old : Bytes) → override v (override v old) ≡ override v old
unfolding override
override-override [] old = refl
override-override (c ∷ v) old = refl

or_else-or_else : (p : ParsedInt) (old : ℤ) → or_else p (or_else p old) ≡ or_else p old
unfolding or_else
or_else-or_else (integer z) old = refl
or_else-or_else int_syntax old = refl
or_else-or_else (int_range b) old = refl

override_int-override_int :
    (v : Bytes) (old : ℤ) → override_int v (override_int v old) ≡ override_int v old
unfolding override_int
override_int-override_int [] old = refl
override_int-override_int (c ∷ v) old = or_else-or_else (atoi (c ∷ v)) old

if_if : (b c : Bool) → (if b then true else (if b then true else c)) ≡ (if b then true else c)
if_if true c = refl
if_if false c = refl

-- The environment overrides a configuration once: applied again it changes nothing.
apply_env-apply_env :
    (getenv : Bytes → Bytes) (cfg : Config)
    → apply_env getenv (apply_env getenv cfg) ≡ apply_env getenv cfg
unfolding apply_env
apply_env-apply_env getenv cfg =
    rw
      (
        override-override (getenv (codes "QCONN_HOST")) cfg.qconn_host,
        override_int-override_int (getenv (codes "QCONN_PORT")) cfg.qconn_port,
        override-override (getenv (codes "MCP_ADDR")) cfg.bind_addr,
        override-override (getenv (codes "MCP_TOKEN")) cfg.token,
        override_int-override_int (getenv (codes "QCONN_DEBUG_PORT")) cfg.debug_port,
        override-override (getenv (codes "LOG_LEVEL")) cfg.log_level,
        if_if (same (getenv (codes "QCONN_TRACE")) (codes "1")) cfg.trace,
      )
      refl
