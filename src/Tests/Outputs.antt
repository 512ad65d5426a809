-- ===== src/Tests/Outputs.antt =====
-- A command's output at concrete inputs.
use tasknexus_client_agent.Executor.Capture.Fuel.{Loops, process_chunk-Loops}
use tasknexus_client_agent.Prelude.{
  ◌++◌, ℕ, Option, none, some, List, [], ◌∷◌, ◌≡◌, refl, arith, last?, Map, or_else, inl,
}
use tasknexus_client_agent.Text.{Text, codes, split_once, trim}
use tasknexus_client_agent.Utf8.{Bytes, encode, encode_char}
use tasknexus_client_agent.Executor.Output.{empty_tail}
use tasknexus_client_agent.Executor.Output.Tail.{append_all-tail, append_all, tail_of, concat}
use tasknexus_client_agent.Executor.Stream.{read_chunks}
use tasknexus_client_agent.Executor.Stream.Lines.{read_chunks-text, joined}
use tasknexus_client_agent.Executor.Capture.{
  visible, new_capture, is_line_end, process_chunk, result_begin_marker, result_end_marker,
  maybe_trim_leading_newline,
}
use tasknexus_client_agent.Executor.Capture.Block.{behind_block, process_chunk-block}
use tasknexus_client_agent.Text.{strip_prefix}

-- A parser that knows one object.
abbrev parse : Text → Option (Map Text ℕ)
parse [] = none
parse (c ∷ t) = some ((codes "value", c) ∷ [])

abbrev decimal : ℕ → Text
decimal n = codes "16384"

abbrev marked : Text
marked =
    codes "a\n" ++ (result_begin_marker ++ (codes " 7 " ++ (result_end_marker ++ codes "\nb\n")))

abbrev unended_block : Text
unended_block = codes "a\n" ++ (result_begin_marker ++ codes " 7\n")

marked-begin :
    split_once result_begin_marker marked
    ≡ some (codes "a\n", codes " 7 " ++ (result_end_marker ++ codes "\nb\n"))
unfolding split_once strip_prefix
marked-begin = refl

marked-end :
    split_once result_end_marker (codes " 7 " ++ (result_end_marker ++ codes "\nb\n"))
    ≡ some (codes " 7 ", codes "\nb\n")
unfolding split_once strip_prefix
marked-end = refl

nothing_more :
    split_once result_begin_marker
      (behind_block (is_line_end (last? ([] ++ codes "a\n"))) (codes "\nb\n"))
    ≡ none
unfolding split_once strip_prefix
nothing_more = refl

process_chunk-block_example :
    ((process_chunk parse marked new_capture).0
      ≡ codes "a\n" ++ behind_block (is_line_end (last? ([] ++ codes "a\n"))) (codes "\nb\n"))
    × ((process_chunk parse marked new_capture).1.result ≡ or_else (parse (trim (codes " 7 "))) [])
    × ((process_chunk parse marked new_capture).1.mode ≡ visible)
process_chunk-block_example =
    process_chunk-block parse [] marked (codes "a\n")
      (codes " 7 " ++ (result_end_marker ++ codes "\nb\n")) (codes " 7 ") (codes "\nb\n")
      new_capture (refl, refl) refl refl refl marked-begin marked-end nothing_more

-- A block that goes on over two chunks and does not end.
abbrev chunks : List Text
chunks = codes "x\n" ∷ unended_block ∷ codes " 8" ∷ []

append_all-tail_example :
    append_all (codes "one" ∷ codes "two" ∷ []) empty_tail
    ≡ tail_of (concat (codes "one" ∷ codes "two" ∷ []))
append_all-tail_example = append_all-tail (codes "one" ∷ codes "two" ∷ [])

-- A read that ends within a character.
abbrev cut_reads : List Bytes
cut_reads = (0xe2 ∷ 0x82 ∷ []) ∷ (0xac ∷ 10 ∷ 97 ∷ []) ∷ []

cut_reads-encode : joined cut_reads ≡ encode (0x20ac ∷ 10 ∷ 97 ∷ [])
unfolding encode encode_char
cut_reads-encode = refl

read_chunks-text_example : concat (read_chunks [] cut_reads) ≡ 0x20ac ∷ 10 ∷ 97 ∷ []
read_chunks-text_example =
    read_chunks-text (0x20ac ∷ 10 ∷ 97 ∷ []) cut_reads
      (inl (omega arith), (inl (omega arith), (inl (omega arith), tt))) cut_reads-encode

abbrev repository : Text
repository = codes "https://host/r.git"

process_chunk-Loops_example :
    let first = maybe_trim_leading_newline marked (new_capture {V = ℕ}) in
    Loops parse first.0 [] first.1 (process_chunk parse marked new_capture)
process_chunk-Loops_example = process_chunk-Loops parse marked new_capture
