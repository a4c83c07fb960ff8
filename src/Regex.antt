-- ===== src/Regex.antt =====
-- Python's `re`, as far as the program uses it: a backtracking matcher with greedy and lazy
-- repetition, groups, `^`, `$`, and the calls `match`, `search`, `sub` and `findall`. A match is
-- tried with a continuation, in the order in which `re` tries it. `\w` and `\d` are those of ASCII.
pub mod Suffix
pub mod Forward
pub mod Anchored
pub mod Escapes
pub mod Removal
pub mod Pieces
use xfce_linux.Base.{
  ℕ, zero, suc, ◌-◌, Bool, true, false, ◌&&◌, ◌||◌, not, Option, none, some, List, [], ◌∷◌, ◌++◌,
  String, Text, codes, length, take, leb, ◌==◌, is_space, if◌then◌else◌, is_empty,
}

pub data Regex : Type 0 where
  eps bos eos : Regex
  sat : (ℕ → Bool) → Regex
  seq alt : Regex → Regex → Regex
  star star_lazy : Regex → Regex
  group : ℕ → Regex → Regex

-- What is left of the text, whether nothing stands before it, and the groups, the latest first.
pub record Cursor : Type 0 where
  pub at_start : Bool
  pub rest : Text
  pub caps : List (ℕ × Text)

abbrev pub Cont : Type 0
Cont = Cursor → Option Cursor

abbrev pub consume : (ℕ → Bool) → Text → Cont → Cursor → Option Cursor
consume p [] k c = none
consume p (x ∷ s) k c =
    if p x then k (record { at_start = false; rest = s; caps = c.caps }) else none

-- `$`: the end, or before a last line feed.
abbrev pub at_end : Text → Bool
at_end [] = true
at_end (x ∷ s) = x == 10 && is_empty s

abbrev pub with_group : ℕ → Cursor → Cursor → Cursor
with_group n c d = record d { caps = (n, take (length c.rest - length d.rest) c.rest) ∷ d.caps }

pub star_loop : (Cont → Cont) → ℕ → Cont → Cont
star_loop one zero k c = k c
star_loop one (suc f) k c = elim (one (star_loop one f k) c) [ none ↦ k c | some m ↦ some m ]

pub lazy_loop : (Cont → Cont) → ℕ → Cont → Cont
lazy_loop one zero k c = k c
lazy_loop one (suc f) k c = elim (k c) [ none ↦ one (lazy_loop one f k) c | some m ↦ some m ]

-- The program repeats no pattern that can match the empty text, so a repetition takes at most as
-- many rounds as there are characters.
unfoldable pub exec : Regex → Cont → Cont
unfolding star_loop lazy_loop
exec eps k c = k c
exec bos k c = if c.at_start then k c else none
exec eos k c = if at_end c.rest then k c else none
exec (sat p) k c = consume p c.rest k c
exec (seq r s) k c = exec r (exec s k) c
exec (alt r s) k c = elim (exec r k c) [ none ↦ exec s k c | some m ↦ some m ]
exec (star r) k c = star_loop (exec r) (suc (length c.rest)) k c
exec (star_lazy r) k c = lazy_loop (exec r) (suc (length c.rest)) k c
exec (group n r) k c = exec r (λ d. k (with_group n c d)) c

-- `r.match(s)`
unfoldable pub match_start : Regex → Text → Option Cursor
unfolding exec
match_start r s = exec r some (record { at_start = true; rest = s; caps = [] })

search_from : Regex → Bool → Text → Option Cursor
unfolding exec
search_from r start [] = exec r some (record { at_start = start; rest = []; caps = [] })
search_from r start (x ∷ s) =
    elim (exec r some (record { at_start = start; rest = x ∷ s; caps = [] })) [
      | none ↦ search_from r false s
      | some m ↦ some m
    ]

-- `r.search(s)`
unfoldable pub search_in : Regex → Text → Option Cursor
unfolding search_from
search_in r s = search_from r true s

sub_loop : ℕ → Regex → Text → Bool → Text → Text
unfolding exec
sub_loop zero r by start s = s
sub_loop (suc f) r by start [] = []
sub_loop (suc f) r by start (x ∷ s) =
    elim (exec r some (record { at_start = start; rest = x ∷ s; caps = [] })) [
      | none ↦ x ∷ sub_loop f r by false s
      | some m ↦ by ++ sub_loop f r by false m.rest
    ]

-- `r.sub(by, s)`, for a pattern that matches no empty text.
unfoldable pub sub_all : Regex → Text → Text → Text
unfolding sub_loop
sub_all r by s = sub_loop (suc (length s)) r by true s

find_loop : ℕ → Regex → Bool → Text → List Cursor
unfolding exec
find_loop zero r start s = []
find_loop (suc f) r start [] = []
find_loop (suc f) r start (x ∷ s) =
    elim (exec r some (record { at_start = start; rest = x ∷ s; caps = [] })) [
      | none ↦ find_loop f r false s
      | some m ↦ m ∷ find_loop f r false m.rest
    ]

-- `r.findall(s)`, for a pattern that matches no empty text.
unfoldable pub find_all : Regex → Text → List Cursor
unfolding find_loop
find_all r s = find_loop (suc (length s)) r true s

abbrev pub group_in : ℕ → List (ℕ × Text) → Text
group_in n [] = []
group_in n ((i, t) ∷ caps) = if i == n then t else group_in n caps

-- `m.group(n)`, for a group that took part in the match.
abbrev pub cap : ℕ → Cursor → Text
cap n m = group_in n m.caps

-- Notation for patterns.
infixr 20 ◌▸◌
abbrev pub ◌▸◌ : Regex → Regex → Regex
r ▸ s = seq r s

abbrev pub chr : ℕ → Regex
chr c = sat (λ x. x == c)

abbrev pub lit_codes : Text → Regex
lit_codes [] = eps
lit_codes (c ∷ []) = chr c
lit_codes (c ∷ d ∷ s) = seq (chr c) (lit_codes (d ∷ s))

abbrev pub lit : String → Regex
lit s = lit_codes (codes s)

abbrev pub plus : Regex → Regex
plus r = seq r (star r)

abbrev pub optional : Regex → Regex
optional r = alt r eps

-- `.`
abbrev pub dot : Regex
dot = sat (λ x. not (x == 10))

abbrev pub is_digit : ℕ → Bool
is_digit x = leb b'0' x && leb x b'9'

abbrev pub is_lower : ℕ → Bool
is_lower x = leb b'a' x && leb x b'z'

abbrev pub is_upper : ℕ → Bool
is_upper x = leb b'A' x && leb x b'Z'

-- `\w`, `\s` and `\d`
abbrev pub is_word : ℕ → Bool
is_word x = is_lower x || is_upper x || is_digit x || x == b'_'

abbrev pub spaces : Regex
spaces = plus (sat is_space)

abbrev pub some_spaces : Regex
some_spaces = star (sat is_space)

abbrev pub digits : Regex
digits = plus (sat is_digit)
