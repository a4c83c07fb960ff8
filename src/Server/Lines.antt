-- ===== src/Server/Lines.antt =====
-- tools/bst-dashboard.py: the lines that `tail_log` parses of a log that grows.
use xfce_linux.Base.{
  Bytes, IsScalar, encode, encode_char, decode, replacement, decode_whole, encode-append,
  encode_some, decode-encode_char, sym, ◌≤◌, take, map, ℕ, ◌<◌, ◌≡◌, ◌≢◌, refl, ap, ◌∙◌, true,
  false, Option, some, List, [], ◌∷◌, ◌++◌, Text, split_on, cons_first, length, length-append, drop,
  ltb, ◌==◌, last_or, lt→ltb, All, arith, Bool-cases, inl, inr,
}
use xfce_linux.Dashboard.Types.{State}
use xfce_linux.Server.Tail.{Tail, all_but_last, parse_lines, read_chunk, poll}

-- The complete lines of a text, and what is after the last of them.
abbrev pub complete : Text → List Text
complete s = all_but_last (split_on 10 s)

abbrev pub open_line : Text → Text
open_line s = last_or [] (split_on 10 s)

add_char :
    (c : ℕ) (b : Text) (ps : List Text)
    → ps ≢ []
    → (c == 10) ≡ false
    → cons_first c (all_but_last ps ++ split_on 10 (last_or [] ps ++ b))
      ≡ all_but_last (cons_first c ps) ++ split_on 10 (last_or [] (cons_first c ps) ++ b)
add_char c b [] n e = absurd (n refl)
add_char c b (p ∷ []) n e = rw e refl
add_char c b (p ∷ q ∷ ps) n e = refl

add_line :
    (b : Text) (ps : List Text)
    → ps ≢ []
    → [] ∷ (all_but_last ps ++ split_on 10 (last_or [] ps ++ b))
      ≡ all_but_last ([] ∷ ps) ++ split_on 10 (last_or [] ([] ∷ ps) ++ b)
add_line b [] n = absurd (n refl)
add_line b (p ∷ ps) n = refl

cons_first_some : (c : ℕ) (ps : List Text) → cons_first c ps ≢ []
cons_first_some c [] = λ e. cc
cons_first_some c (p ∷ ps) = λ e. cc

split_some : (s : Text) → split_on 10 s ≢ []
split_some [] = λ e. cc
split_some (c ∷ s) = elim (Bool-cases (c == 10)) [
  | inl e ↦ rw e (λ h. cc)
  | inr e ↦ rw e (cons_first_some c (split_on 10 s))
]

-- The parts of a text that is cut in two: the complete lines of the first half, and the parts of
-- what is left.
split_on-append : (a b : Text) → split_on 10 (a ++ b) ≡ complete a ++ split_on 10 (open_line a ++ b)
split_on-append [] b = refl
split_on-append (c ∷ a) b = elim (Bool-cases (c == 10)) [
  | inl e ↦
      rw e (ap (λ l. [] ∷ l) (split_on-append a b) ∙ add_line b (split_on 10 a) (split_some a))
  | inr e ↦
      rw e (ap (cons_first c) (split_on-append a b) ∙ add_char c b (split_on 10 a) (split_some a) e)
]

all_but_last-append :
    (xs ys : List Text) → ys ≢ [] → all_but_last (xs ++ ys) ≡ xs ++ all_but_last ys
all_but_last-append [] ys n = refl
all_but_last-append (x ∷ []) [] n = absurd (n refl)
all_but_last-append (x ∷ []) (y ∷ ys) n = refl
all_but_last-append (x ∷ w ∷ xs) ys n = ap (λ l. x ∷ l) (all_but_last-append (w ∷ xs) ys n)

last_or-append : (a : Text) (xs ys : List Text) → ys ≢ [] → last_or a (xs ++ ys) ≡ last_or [] ys
last_or-append a [] [] n = absurd (n refl)
last_or-append a [] (y ∷ ys) n = refl
last_or-append a (x ∷ xs) ys n = last_or-append x xs ys n

drop-front : (a b : Bytes) → drop (length a) (a ++ b) ≡ b
drop-front [] b = refl
drop-front (x ∷ a) b = drop-front a b

not_shorter : (file more : Bytes) → ltb (length (file ++ more)) (length file) ≡ false
not_shorter file more = let p = length-append file more in ground arith

longer : (file more : Bytes) → more ≢ [] → ltb (length file) (length (file ++ more)) ≡ true
longer file [] n = absurd (n refl)
longer file (b ∷ more) n = let p = length-append file (b ∷ more) in ground arith

module _ (parse : Text → State → State) (reset : State → State) (mtime : Option ℕ) where
  parse_lines-append :
      (xs ys : List Text) (s : State)
      → parse_lines parse reset (xs ++ ys) s
        ≡ parse_lines parse reset ys (parse_lines parse reset xs s)
  parse_lines-append [] ys s = refl
  parse_lines-append (x ∷ xs) ys s = parse_lines-append xs ys (parse x s)

  -- What the tail has when it has read the bytes of a whole text.
  abbrev pub caught_up : Text → State → Tail
  caught_up text s = record {
    buf = open_line text;
    pos = length (encode text);
    state = parse_lines parse reset (complete text) s;
  }

  read_chunk-caught_up :
      (text more : Text) (size : ℕ) (s : State)
      → read_chunk parse reset more size (caught_up text s)
        ≡ record (caught_up (text ++ more) s) { pos = size }
  read_chunk-caught_up text more size s =
      let rest = split_on 10 (open_line text ++ more) in
      let n = split_some (open_line text ++ more) in
      rw
        (
          split_on-append text more,
          last_or-append [] (complete text) rest n,
          all_but_last-append (complete text) rest n,
          parse_lines-append (complete text) (all_but_last rest) s,
        )
        refl

  -- The log grows by these texts, with a turn after each.
  abbrev pub follow : List Text → Text → Tail → Tail
  follow [] text t = t
  follow (more ∷ pieces) text t =
      follow pieces (text ++ more)
        (poll parse reset (some (encode text ++ encode more)) true mtime t)

  abbrev pub joined : List Text → Text → Text
  joined [] text = text
  joined (more ∷ pieces) text = joined pieces (text ++ more)

  poll-caught_up :
      (text more : Text) (s : State)
      → more ≢ []
      → All IsScalar more
      → poll parse reset (some (encode text ++ encode more)) true mtime (caught_up text s)
        ≡ caught_up (text ++ more) s
  unfolding poll
  poll-caught_up text more s n a =
      let a' = encode text in
      let b' = encode more in
      let d : decode b' ≡ more = decode_whole more a in
      rw (not_shorter a' b', longer a' b' (encode_some more n), drop-front a' b', d)
        (read_chunk-caught_up text more (length (a' ++ b')) s
          ∙ ap (λ l. record (caught_up (text ++ more) s) { pos = length l })
              (sym (encode-append text more)))

  abbrev pub ArePieces : List Text → Type 0
  ArePieces pieces = All (λ p. (p ≢ []) × All IsScalar p) pieces

  follow-caught_up :
      (pieces : List Text) (text : Text) (s : State)
      → ArePieces pieces
      → follow pieces text (caught_up text s) ≡ caught_up (joined pieces text) s
  follow-caught_up [] text s h = refl
  follow-caught_up (more ∷ pieces) text s ((n, a), h) =
      ap (follow pieces (text ++ more)) (poll-caught_up text more s n a)
      ∙ follow-caught_up pieces (text ++ more) s h

  -- However a log in UTF-8 grows, by texts that are not empty and with a turn after each, the tail
  -- parses the complete lines of the whole, each once and in their order, and keeps the rest.
  pub follow-lines :
      (pieces : List Text) (s : State)
      → ArePieces pieces
      → follow pieces [] (record { buf = []; pos = 0; state = s }) ≡ caught_up (joined pieces []) s
  unfolding encode
  follow-lines pieces s h = follow-caught_up pieces [] s h

  -- A log in UTF-8 that is shorter than what was read resets the state and is read from its start,
  -- without the rest of the line before.
  pub poll-truncated :
      (more : Text) (t : Tail)
      → length (encode more) < t.pos
      → more ≢ []
      → All IsScalar more
      → poll parse reset (some (encode more)) true mtime t ≡ caught_up more (reset t.state)
  unfolding poll encode
  poll-truncated more t l n a =
      let b = encode more in
      let d : decode b ≡ more = decode_whole more a in
      rw (lt→ltb (length b) t.pos l, longer [] b (encode_some more n), d) refl

  map_append : (f : ℕ → ℕ) (xs ys : List ℕ) → map f xs ++ map f ys ≡ map f (xs ++ ys)
  map_append f [] ys = refl
  map_append f (x ∷ xs) ys = ap (λ l. f x ∷ l) (map_append f xs ys)

  -- What the tail has of a character and of a part of it, at the start of a log.
  abbrev pub begun : Bytes → State → Tail
  begun bytes s = record { buf = map (λ b. replacement) bytes; pos = length bytes; state = s }

  split_replaced :
      (bs : Bytes)
      → split_on 10 (map (λ (b : ℕ). replacement) bs) ≡ map (λ (b : ℕ). replacement) bs ∷ []
  split_replaced [] = refl
  split_replaced (b ∷ bs) = rw (split_replaced bs) refl

  poll_replaced :
      (front more : Bytes) (s : State)
      → more ≢ []
      → decode more ≡ map (λ (b : ℕ). replacement) more
      → poll parse reset (some (front ++ more)) true mtime (begun front s) ≡ begun (front ++ more) s
  unfolding poll
  poll_replaced front more s n d =
      rw
        (
          not_shorter front more,
          longer front more n,
          drop-front front more,
          d,
          map_append (λ (b : ℕ). replacement) front more,
          split_replaced (front ++ more),
        )
        refl

  -- A character of several bytes that is the whole log and is cut after the first of them between two
  -- turns becomes a replacement character for each of its bytes.
  pub poll-cut :
      (c : ℕ) (s : State)
      → 0x80 ≤ c
      → IsScalar c
      → poll parse reset
          (some (encode_char c))
          true
          mtime
          (poll parse reset (some (take 1 (encode_char c))) true mtime (begun [] s))
        ≡ begun (encode_char c) s
  poll-cut c s l h =
      let (b, bs, e, n, p, q) = decode-encode_char c l h in
      rw e (
        ap (poll parse reset (some (b ∷ bs)) true mtime) (poll_replaced [] (b ∷ []) s (λ z. cc) p)
        ∙ poll_replaced (b ∷ []) bs s n q)
