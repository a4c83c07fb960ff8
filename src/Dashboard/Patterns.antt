-- ===== src/Dashboard/Patterns.antt =====
-- tools/bst_dashboard/parser.py: the regular expressions, one definition for each.
use xfce_linux.Base.{ℕ, Bool, ◌&&◌, ◌||◌, not, leb, ◌==◌, is_space}
use xfce_linux.Regex.{
  Regex, bos, eos, sat, alt, star, star_lazy, group, ◌▸◌, chr, lit, plus, optional, dot, is_digit,
  is_lower, is_upper, is_word, spaces, some_spaces, digits,
}

-- The character classes.
abbrev pub is_code_char : ℕ → Bool
is_code_char x = is_digit x || x == b';'

abbrev pub is_ansi_end : ℕ → Bool
is_ansi_end x = x == b'm' || x == b'G' || x == b'K' || x == b'H' || x == b'F'

abbrev pub is_time_char : ℕ → Bool
is_time_char x = is_digit x || x == b'-' || x == b':'

abbrev pub is_hash_char : ℕ → Bool
is_hash_char x = is_digit x || (leb b'a' x && leb x b'f') || x == b' '

abbrev pub is_ctx_char : ℕ → Bool
is_ctx_char x = not (x == b']')

abbrev pub is_dir_char : ℕ → Bool
is_dir_char x = is_lower x || is_digit x || x == b'_' || x == b'-'

abbrev pub is_name_char : ℕ → Bool
is_name_char x = is_lower x || is_upper x || is_digit x || x == b'_' || x == b'.' || x == b'-'

abbrev pub is_junction_char : ℕ → Bool
is_junction_char x = is_word x || x == b'-'

abbrev pub is_element_char : ℕ → Bool
is_element_char x = is_word x || x == b'/' || x == b'.' || x == b'-'

abbrev pub is_solid : ℕ → Bool
is_solid x = not (is_space x)

-- `ANSI`
unfoldable pub ansi : Regex
ansi =
    alt (chr 0x1b ▸ chr b'[' ▸ star (sat is_code_char) ▸ sat is_ansi_end)
      (chr 0x1b ▸ chr b'[' ▸ star (sat is_code_char) ▸ chr b'm')

-- `BUILD_HEADER_RE`
unfoldable pub build_header_re : Regex
build_header_re = lit "=== Build started at " ▸ group 1 (dot ▸ star_lazy dot) ▸ lit " ==="

-- The statuses of `LINE_RE`.
unfoldable pub status_re : Regex
status_re = alt (lit "START" ▸ spaces) (
    alt (lit "SUCCESS") (
      alt (lit "FAILURE") (
        alt (lit "SKIPPED") (
          alt (lit "STATUS" ▸ spaces)
            (alt (lit "INFO" ▸ spaces) (alt (lit "WARN" ▸ spaces) (lit "PULL" ▸ spaces)))))))

-- `LINE_RE`; the groups `time`, `hash`, `ctx`, `status`, `msg` are 1 to 5.
unfoldable pub line_re : Regex
unfolding status_re
line_re =
    bos
    ▸ chr b'['
    ▸ group 1 (plus (sat is_time_char))
    ▸ chr b']'
    ▸ chr b'['
    ▸ group 2 (plus (sat is_hash_char))
    ▸ chr b']'
    ▸ chr b'['
    ▸ group 3 (plus (sat is_ctx_char))
    ▸ chr b']'
    ▸ spaces
    ▸ group 4 status_re
    ▸ some_spaces
    ▸ group 5 (star dot)
    ▸ eos

-- `BUILD_LOG_RE`
unfoldable pub build_log_re : Regex
build_log_re = plus (sat is_dir_char) ▸ plus (chr b'/' ▸ plus (sat is_name_char)) ▸ lit ".log" ▸ eos

-- `PIPELINE_SUMMARY_RE`
unfoldable pub pipeline_summary_re : Regex
pipeline_summary_re = bos ▸ lit "Pipeline Summary" ▸ some_spaces ▸ eos

-- `SUMMARY_TOTAL_RE`
unfoldable pub summary_total_re : Regex
summary_total_re = bos ▸ spaces ▸ lit "Total:" ▸ spaces ▸ group 1 digits

-- `SUMMARY_QUEUE_RE`
unfoldable pub summary_queue_re : Regex
summary_queue_re =
    bos
    ▸ spaces
    ▸ group 1 (alt (lit "Pull") (lit "Build"))
    ▸ lit " Queue:"
    ▸ spaces
    ▸ lit "processed "
    ▸ group 2 digits
    ▸ lit ", skipped "
    ▸ group 3 digits
    ▸ lit ", failed "
    ▸ group 4 digits

-- `FAILURE_ELEM_RE`
unfoldable pub failure_elem_re : Regex
failure_elem_re =
    bos
    ▸ spaces
    ▸ optional (group 1 (plus (sat is_junction_char) ▸ lit ".bst:"))
    ▸ lit "kde/"
    ▸ plus (sat is_element_char)
    ▸ lit ".bst:"
    ▸ some_spaces
    ▸ eos

-- `BST_LOG_PATH_RE`
unfoldable pub bst_log_path_re : Regex
bst_log_path_re =
    bos
    ▸ spaces
    ▸ lit "/root/.cache/buildstream/logs/"
    ▸ group 1 (plus (sat is_solid) ▸ lit ".log")
    ▸ some_spaces
    ▸ eos

-- `ELEMENT_RE`
unfoldable pub element_re : Regex
element_re = some_spaces ▸ group 1 (plus (sat is_word)) ▸ chr b':' ▸ group 2 (plus dot)

-- The time zone that `parse_line` takes out of the header's date.
abbrev upper : Regex
upper = sat is_upper

unfoldable pub zone_re : Regex
zone_re = spaces ▸ upper ▸ upper ▸ optional (upper ▸ optional (upper ▸ optional upper)) ▸ spaces

-- `CMAKE_PROGRESS_RE`
unfoldable pub cmake_progress_re : Regex
cmake_progress_re =
    chr b'[' ▸ some_spaces ▸ group 1 digits ▸ chr b'/' ▸ some_spaces ▸ group 2 digits ▸ chr b']'

-- `RUST_COMPILE_RE`
unfoldable pub rust_compile_re : Regex
rust_compile_re =
    bos ▸ spaces ▸ lit "Compiling" ▸ spaces ▸ plus (sat is_solid) ▸ spaces ▸ chr b'v' ▸ sat is_solid

-- `RUST_FINISHED_RE`
unfoldable pub rust_finished_re : Regex
rust_finished_re = bos ▸ spaces ▸ lit "Finished" ▸ sat is_space
