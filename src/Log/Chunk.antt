-- ===== src/Log/Chunk.antt =====
-- `read_utf8_chunk` and `trim_output_for_storage` of agent/src/main.rs.
pub mod Cut
use tasknexus_client_agent.Prelude.{
  ℕ, zero, suc, ◌-◌, ◌*◌, min, Bool, true, false, Option, none, some, List, [], ◌∷◌, ◌++◌,
  if◌then◌else◌, leb, is_some, take, drop, length,
}
use tasknexus_client_agent.Text.{Text, codes}
use tasknexus_client_agent.Utf8.{Bytes, from_utf8}

abbrev pub max_log_chunk_bytes : ℕ
max_log_chunk_bytes = 64 * 1024

abbrev pub max_stored_output_chars : ℕ
max_stored_output_chars = 16 * 1024

-- The `while` loop: the longest prefix of at most that many bytes that is valid UTF-8.
unfoldable pub valid_len : ℕ → Bytes → ℕ
valid_len zero raw = 0
valid_len (suc n) raw =
    let shorter = valid_len n raw in
    if is_some (from_utf8 (take (suc n) raw)) then suc n else shorter

-- What is decoded, and how many bytes it takes.
unfoldable pub decode_prefix : Bytes → Text × ℕ
unfolding valid_len
decode_prefix raw = elim (from_utf8 (take (valid_len (length raw) raw) raw)) [
  | none ↦ ([], 0)
  | some content ↦ (content, valid_len (length raw) raw)
]

-- The file is given by its bytes. `limit` is how the read ends: an error, or at most so many bytes.
unfoldable pub read_utf8_chunk : Option ℕ → Bytes → ℕ → ℕ → Option (Text × ℕ)
read_utf8_chunk none file start_offset max_bytes = none
read_utf8_chunk (some limit) file start_offset max_bytes =
    some (decode_prefix (take (min limit max_bytes) (drop start_offset file)))

-- `decimal` writes a number; the text is that of `format!`.
unfoldable pub trim_output_for_storage : (ℕ → Text) → Text → Text
trim_output_for_storage decimal content =
    if leb (length content) max_stored_output_chars
    then content
    else codes "[task output truncated, showing last "
      ++ (decimal max_stored_output_chars
          ++ (codes " chars]\n" ++ drop (length content - max_stored_output_chars) content))
