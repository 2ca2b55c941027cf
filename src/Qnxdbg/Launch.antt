-- ===== src/Qnxdbg/Launch.antt =====
-- internal/qnxdbg/commands.go: `Launch`, which stages the environment and the arguments and loads
-- a program.
use qnx8_qconn_mcp.Prelude.{
  ℕ, zero, suc, ◌+◌, List, [], ◌∷◌, ◌++◌, Option, none, some, Bytes, codes, ltb, leb, if◌then◌else◌,
  length, drop, replicate, pure, ◌>>=◌, ◌>>◌, u32, to_decimal,
}
use qnx8_qconn_mcp.Qnxdbg.Client.{M, target_errno, transact, transact_sub, resp_body}
use qnx8_qconn_mcp.Qnxdbg.Commands.{expect, errno_string}

abbrev pub cmd_load : ℕ
cmd_load = 4

abbrev pub cmd_env : ℕ
cmd_env = 21

abbrev pub env_reset_argv : ℕ
env_reset_argv = 0x00

abbrev pub env_set_argv : ℕ
env_set_argv = 0x01

abbrev pub env_reset_env : ℕ
env_reset_env = 0x02

abbrev pub env_set_env : ℕ
env_set_env = 0x03

pub record LaunchResult : Type 0 where
  pub pid : ℕ
  pub tid : ℕ

abbrev pub default_launch_env : List Bytes
default_launch_env =
    codes "PATH=/proc/boot:/system/bin" ∷ codes "HOME=/" ∷ codes "LD_BIND_NOW=1" ∷ []

-- `nil` uses the default; an empty slice does not.
abbrev pub launch_env : Option (List Bytes) → List Bytes
launch_env none = default_launch_env
launch_env (some env) = env

-- `append([]string{path, path}, args...)`
abbrev pub staged : Bytes → List Bytes → List Bytes
staged path args = path ∷ path ∷ args

-- The loop `for i := 0; i < n; i++` over the markers "@i", by the rounds left.
unfoldable pub markers : ℕ → ℕ → Bytes
markers zero i = []
markers (suc n) i = b'@' ∷ (to_decimal i ++ (0 ∷ markers n (i + 1)))

abbrev pub marker_count : ℕ → ℕ
marker_count n = if ltb n 3 then 3 else n

unfoldable pub load_body : Bytes → List Bytes → Bytes
load_body path args =
    replicate 8 0
    ++ (path ++ (0 ∷ (markers (marker_count (length (staged path args))) 0 ++ 0 ∷ [])))

unfoldable pub launched : Bytes → LaunchResult
launched p =
    let b = resp_body p in
    let whole = leb 8 (length b) in
    record { pid = if whole then u32 b else 0; tid = if whole then u32 (drop 4 b) else 0 }

module _ {P : Type 0} where
  unfoldable pub env_cmd : ℕ → Bytes → M P (Unit {0})
  env_cmd sub body = do
    p ← transact_sub cmd_env sub body
    expect (target_errno cmd_env (errno_string (resp_body p))) p

  -- `for _, e := range texts { c.envCmd(sub, append([]byte(e), 0)) }`
  unfoldable pub env_each : ℕ → List Bytes → M P (Unit {0})
  env_each sub [] = pure tt
  env_each sub (e ∷ es) = do env_cmd sub (e ++ 0 ∷ []); env_each sub es

  unfoldable pub launch : Bytes → List Bytes → Option (List Bytes) → M P LaunchResult
  launch path args env = do
    env_cmd env_reset_env (replicate 1024 0)
    env_each env_set_env (launch_env env)
    env_cmd env_reset_argv (replicate 1024 0)
    env_each env_set_argv (staged path args)
    p ← transact cmd_load (load_body path args)
    expect (target_errno cmd_load (errno_string (resp_body p))) p
    pure (launched p)
