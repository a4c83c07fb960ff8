-- ===== src/Base/Json.antt =====
-- Python's `json.dumps` of texts, lists and dicts whose values are printed already: on one line with
-- all other than ASCII escaped, or by lines with an indent of 2 and texts as they are.
use Prim.Native.Nat.{ℕ, ◌+◌, ◌-◌, ◌/◌, ◌%◌}
use mathlib.Core.Bool.{◌&&◌}
use mathlib.Core.List.{List, [], ◌∷◌, ◌++◌, map}
use xfce_linux.Base.Tests.{if◌then◌else◌, ltb, leb, ◌==◌}
use xfce_linux.Base.Strings.{Text, codes, join}

abbrev hex_digit : ℕ → ℕ
hex_digit n = if ltb n 10 then b'0' + n else b'a' + n - 10

-- `\uXXXX`
abbrev hex_escape : ℕ → Text
hex_escape n =
    b'\\'
    ∷ b'u'
    ∷ hex_digit (n / 0x1000 % 16)
    ∷ hex_digit (n / 0x100 % 16)
    ∷ hex_digit (n / 16 % 16)
    ∷ hex_digit (n % 16)
    ∷ []

abbrev surrogates : ℕ → Text
surrogates n = hex_escape (0xd800 + n / 0x400) ++ hex_escape (0xdc00 + n % 0x400)

-- The escapes of one letter, and else what `other` gives.
abbrev short_escape : (ℕ → Text) → ℕ → Text
short_escape other c =
    if c == b'"'
    then b'\\' ∷ b'"' ∷ []
    else if c == b'\\'
    then b'\\' ∷ b'\\' ∷ []
    else if c == 10
    then b'\\' ∷ b'n' ∷ []
    else if c == 13
    then b'\\' ∷ b'r' ∷ []
    else if c == 9
    then b'\\' ∷ b't' ∷ []
    else if c == 12
    then b'\\' ∷ b'f' ∷ []
    else if c == 8
    then b'\\' ∷ b'b' ∷ []
    else other c

abbrev ascii_char : ℕ → Text
ascii_char c =
    if leb 32 c && leb c 126
    then c ∷ []
    else if ltb c 0x10000
    then hex_escape c
    else surrogates (c - 0x10000)

abbrev plain_char : ℕ → Text
plain_char c = if ltb c 32 then hex_escape c else c ∷ []

abbrev escaped_by : (ℕ → Text) → Text → Text
escaped_by f [] = []
escaped_by f (c ∷ s) = short_escape f c ++ escaped_by f s

unfoldable pub json_text : Text → Text
json_text s = b'"' ∷ (escaped_by ascii_char s ++ b'"' ∷ [])

-- With `ensure_ascii=False`.
unfoldable pub json_plain : Text → Text
json_plain s = b'"' ∷ (escaped_by plain_char s ++ b'"' ∷ [])

abbrev pub json_list : List Text → Text
json_list vs = codes "[" ++ join (codes ", ") vs ++ codes "]"

abbrev colon : Text × Text → Text
colon (k, v) = k ++ codes ": " ++ v

abbrev pub json_dict : List (Text × Text) → Text
json_dict fields = codes "{" ++ join (codes ", ") (map colon fields) ++ codes "}"

-- With `indent=2`: the brackets, and the items on lines of their own between a margin and the next.
abbrev indented : Text → Text → Text → List Text → Text
indented open_mark close_mark margin [] = open_mark ++ close_mark
indented open_mark close_mark margin (v ∷ vs) =
    open_mark
    ++ codes "\n"
    ++ margin
    ++ codes "  "
    ++ join (codes ",\n" ++ margin ++ codes "  ") (v ∷ vs)
    ++ codes "\n"
    ++ margin
    ++ close_mark

abbrev pub json_lines : Text → List Text → Text
json_lines = indented (codes "[") (codes "]")

abbrev pub json_fields : Text → List (Text × Text) → Text
json_fields margin fields = indented (codes "{") (codes "}") margin (map colon fields)
