-- ===== src/Error.antt =====
-- agent/src/error.rs. An error that another crate made is carried as its text.
use tasknexus_client_agent.Prelude.{◌++◌}
use tasknexus_client_agent.Text.{Text, codes}

pub data AgentError : Type 0 where
  config connection web_socket json yaml io url execution : Text → AgentError
  timeout : AgentError

pub data Result {ℓ} (A : Type ℓ) : Type ℓ where
  ok : A → Result A
  err : AgentError → Result A

-- The `?` of a call that gives a `Result`.
abbrev pub ◌>>=◌ {ℓ κ} : {S : Type ℓ} {T : Type κ} → Result S → (S → Result T) → Result T
ok value >>= rest = rest value
err e >>= rest = err e

infixl 5 ◌>>=◌
-- `Display`
abbrev pub display : AgentError → Text
display (config message) = codes "配置错误: " ++ message
display (connection message) = codes "连接错误: " ++ message
display (web_socket message) = codes "WebSocket 错误: " ++ message
display (json message) = codes "JSON 解析错误: " ++ message
display (yaml message) = codes "YAML 解析错误: " ++ message
display (io message) = codes "IO 错误: " ++ message
display (url message) = codes "URL 解析错误: " ++ message
display (execution message) = codes "任务执行错误: " ++ message
display timeout = codes "超时"
