-- ===== src/Server/Tail.antt =====
-- tools/bst-dashboard.py: `tail_log`, one turn of its loop for each state of the file. `parse_line`
-- and `reset_state`, with the clocks that they read, are arguments.
use xfce_linux.Base.{
  Bytes, decode, ℕ, Bool, true, false, ◌&&◌, not, Option, none, some, List, [], ◌∷◌, ◌++◌, Text,
  split_on, length, drop, ltb, if◌then◌else◌, last_or,
}
use xfce_linux.Dashboard.Types.{State, update, is_set}

-- `buf` and `pos`, and the state of the dashboard.
pub record Tail : Type 0 where
  pub buf : Text
  pub pos : ℕ
  pub state : State

-- `lines[:-1]`
abbrev pub all_but_last : List Text → List Text
all_but_last [] = []
all_but_last (l ∷ []) = []
all_but_last (l ∷ m ∷ ls) = l ∷ all_but_last (m ∷ ls)

abbrev pub no_jobs : {A : Type 0} → List A → Bool
no_jobs [] = true
no_jobs (x ∷ xs) = false

-- `_done_catching_up`, with the time of the file, if `getmtime` gives it.
abbrev mtime_or : ℕ → Option ℕ → ℕ
mtime_or old none = old
mtime_or old (some t) = t

unfoldable pub done_catching_up : Option ℕ → State → State
done_catching_up mtime s =
    let t : State = record s { catching_up = false } in
    if no_jobs s.active && ltb 0 s.success_count && not (is_set s.build_end_ts)
    then record t { build_end_ts = mtime_or s.build_end_ts mtime }
    else t

module _ (parse : Text → State → State) (reset : State → State) where
  -- The loop over the lines.
  abbrev pub parse_lines : List Text → State → State
  parse_lines [] s = s
  parse_lines (l ∷ ls) s = parse_lines ls (parse l s)

  abbrev pub read_chunk : Text → ℕ → Tail → Tail
  read_chunk chunk size t =
      let lines = split_on 10 (t.buf ++ chunk) in
      record {
        buf = last_or [] lines;
        pos = size;
        state = parse_lines (all_but_last lines) t.state;
      }

  abbrev pub truncated : ℕ → Tail → Tail
  truncated size t =
      if ltb size t.pos then record { buf = []; pos = 0; state = reset t.state } else t

  -- The rest of the turn, when the file is readable or not.
  abbrev pub read_on : Bytes → Bool → Option ℕ → Tail → Tail
  read_on file readable mtime t =
      if ltb t.pos (length file)
      then (if readable then read_chunk (decode (drop t.pos file)) (length file) t else t)
      else if t.state.catching_up
      then record t { state = update (done_catching_up mtime) t.state }
      else t

  -- One turn: the file, unless it is not there, whether it can be read, and its time.
  unfoldable pub poll : Option Bytes → Bool → Option ℕ → Tail → Tail
  poll none readable mtime t = t
  poll (some file) readable mtime t = read_on file readable mtime (truncated (length file) t)
