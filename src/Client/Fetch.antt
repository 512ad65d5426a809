-- ===== src/Client/Fetch.antt =====
-- `handle_fetch_agent_log` of agent/src/client.rs: the end of the agent's own log for the server.
pub mod Tail
use tasknexus_client_agent.Prelude.{
  ℕ, ◌-◌, min, Bool, true, false, not, Option, none, some, List, [], ◌∷◌, ◌++◌, if◌then◌else◌, eqb,
  ltb, length, drop, ◌⊎◌, inl, inr,
}
use tasknexus_client_agent.Text.{Text, codes}
use tasknexus_client_agent.Utf8.{Bytes, from_utf8_lossy}
use tasknexus_client_agent.Client.Connection.{AgentClient, send_agent_log_content}

-- The file system, where an error is its text
pub record LogFiles : Type 0 where
  pub exists : Text → Bool
  pub read : Text → Text ⊎ Bytes

-- What stands behind the first line feed.
unfoldable pub behind_line : Text → Option Text
behind_line [] = none
behind_line (c ∷ t) = let rest = behind_line t in if eqb c 10 then some t else rest

abbrev pub or_whole : Text → Option Text → Text
or_whole content none = content
or_whole content (some rest) = rest

-- The bytes that are left out, since `usize` and `u64` have one width here.
abbrev pub offset_of : ℕ → Bytes → ℕ
offset_of tail_bytes bytes = length bytes - min tail_bytes (length bytes)

abbrev pub is_truncated : ℕ → Bytes → Bool
is_truncated tail_bytes bytes = ltb 0 (offset_of tail_bytes bytes)

-- The content for the server: a first line that is cut goes.
unfoldable pub log_content : ℕ → Bytes → Text
unfolding from_utf8_lossy behind_line
log_content tail_bytes bytes =
    let content = from_utf8_lossy (drop (offset_of tail_bytes bytes) bytes) in
    if is_truncated tail_bytes bytes then or_whole content (behind_line content) else content

module _ {V : Type 0} where
  abbrev pub send_content : Text → Text → ℕ → Text ⊎ Bytes → AgentClient V → AgentClient V
  send_content request_id path tail_bytes (inr bytes) c =
      (send_agent_log_content request_id (log_content tail_bytes bytes) path (length bytes)
        (is_truncated tail_bytes bytes) [] c).1
  send_content request_id path tail_bytes (inl e) c =
      (send_agent_log_content request_id [] path 0 false (codes "读取日志文件失败: " ++ e) c).1

  abbrev pub fetch_from : LogFiles → Option Text → Text → ℕ → AgentClient V → AgentClient V
  fetch_from log_files none request_id tail_bytes c =
      (send_agent_log_content request_id [] [] 0 false (codes "Agent 未配置 log_file，日志仅输出到 stdout")
        c).1
  fetch_from log_files (some path) request_id tail_bytes c =
      if log_files.exists path
      then send_content request_id path tail_bytes (log_files.read path) c
      else (send_agent_log_content request_id [] path 0 false (codes "日志文件不存在: " ++ path) c).1

  unfoldable pub handle_fetch_agent_log : LogFiles → Text → ℕ → AgentClient V → AgentClient V
  unfolding log_content send_agent_log_content
  handle_fetch_agent_log log_files request_id tail_bytes c =
      fetch_from log_files c.config.log_file request_id tail_bytes c
