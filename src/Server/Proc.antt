-- ===== src/Server/Proc.antt =====
-- tools/bst-dashboard.py: `_read_proc_stat` and `_read_proc_meminfo`.
use xfce_linux.Base.{
  ℕ, ◌+◌, ◌-◌, ◌*◌, ◌||◌, Option, none, some, List, [], ◌∷◌, Text, codes, starts_with, strip,
  split_words, take, drop, before_first, after_first, has_char, is_empty, digits_value, text_eq,
  any, not, if◌then◌else◌, ltb, ℤ, pos, negsuc,
}
use xfce_linux.Regex.{is_digit}

abbrev pub cons_opt : Option ℕ → Option (List ℕ) → Option (List ℕ)
cons_opt none l = none
cons_opt (some n) none = none
cons_opt (some n) (some l) = some (n ∷ l)

-- `int(s)` of a text of digits, which is what the kernel writes; another raises.
abbrev pub int_of : Text → Option ℕ
int_of s = if is_empty s || any (λ c. not (is_digit c)) s then none else some (digits_value 0 s)

abbrev pub ints_of : List Text → Option (List ℕ)
ints_of [] = some []
ints_of (w ∷ ws) = cons_opt (int_of w) (ints_of ws)

abbrev pub sum : List ℕ → ℕ
sum [] = 0
sum (n ∷ ns) = n + sum ns

-- `(idle, total)`, if there are the fields `vals[3]` and `vals[4]`.
abbrev pub ticks : List ℕ → Option (ℕ × ℕ)
ticks (a ∷ b ∷ c ∷ idle ∷ iowait ∷ more) =
    some (idle + iowait, sum (a ∷ b ∷ c ∷ idle ∷ iowait ∷ more))
ticks (a ∷ b ∷ c ∷ d ∷ []) = none
ticks (a ∷ b ∷ c ∷ []) = none
ticks (a ∷ b ∷ []) = none
ticks (a ∷ []) = none
ticks [] = none

abbrev pub ticks_of : Option (List ℕ) → Option (ℕ × ℕ)
ticks_of none = none
ticks_of (some vals) = ticks vals

abbrev pub cons_ticks : Option (ℕ × ℕ) → List (ℕ × ℕ) → List (ℕ × ℕ)
cons_ticks none rest = []
cons_ticks (some t) rest = t ∷ rest

-- `_read_proc_stat` of the lines of the file: an exception ends it with what is read so far.
unfoldable pub read_proc_stat : List Text → List (ℕ × ℕ)
read_proc_stat [] = []
read_proc_stat (line ∷ lines) =
    let rest = read_proc_stat lines in
    if starts_with line (codes "cpu")
    then cons_ticks (ticks_of (ints_of (take 7 (drop 1 (split_words line))))) rest
    else []

-- One line of /proc/meminfo, with its value in kB; another form raises.
abbrev pub first_word : List Text → Text
first_word [] = []
first_word (w ∷ ws) = w

abbrev pub with_key : Text → Option ℕ → Option (Text × ℕ)
with_key k none = none
with_key k (some n) = some (k, n)

abbrev pub mem_line : Text → Option (Text × ℕ)
mem_line line =
    if has_char b':' line
    then with_key (strip (before_first b':' line))
        (int_of (first_word (split_words (after_first b':' line))))
    else none

abbrev pub cons_mem : Option (Text × ℕ) → Option (List (Text × ℕ)) → Option (List (Text × ℕ))
cons_mem none l = none
cons_mem (some p) none = none
cons_mem (some p) (some l) = some (p ∷ l)

abbrev pub mem_lines : List Text → Option (List (Text × ℕ))
mem_lines [] = some []
mem_lines (l ∷ ls) = cons_mem (mem_line l) (mem_lines ls)

-- `info.get(k, 0)`, where the last line of a key counts.
abbrev pub mem_get : Text → ℕ → List (Text × ℕ) → ℕ
mem_get k old [] = old
mem_get k old ((j, n) ∷ l) = if text_eq j k then mem_get k n l else mem_get k old l

abbrev pub difference : ℕ → ℕ → ℤ
difference m n = if ltb m n then negsuc (n - m - 1) else pos (m - n)

abbrev pub mem_answer : Option (List (Text × ℕ)) → Option (ℤ × ℕ)
mem_answer none = none
mem_answer (some l) =
    let total = mem_get (codes "MemTotal") 0 l in
    let avail = mem_get (codes "MemAvailable") 0 l in
    some (difference (total * 1024) (avail * 1024), total * 1024)

-- `_read_proc_meminfo` of the lines of the file
unfoldable pub read_proc_meminfo : List Text → Option (ℤ × ℕ)
read_proc_meminfo lines = mem_answer (mem_lines lines)
