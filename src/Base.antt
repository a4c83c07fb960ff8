-- ===== src/Base.antt =====
-- The names that the other modules share: the libraries', passed on, and those of the children.
mod Tests
mod Lists
mod Strings
mod StringLaws
mod Split
mod SplitLaws
mod Utf8
mod Utf8Laws
mod Utf8Strict
mod Int
mod Json
mod Decimal
pub use Tests.*
pub use Lists.*
pub use Strings.*
pub use StringLaws.*
pub use Decimal.{str, str-value}
unfoldable pub use Decimal.{int_text}
pub use Json.{json_list, json_dict, json_lines, json_fields}
unfoldable pub use Json.{json_text, json_plain}
pub use Split.*
pub use SplitLaws.*
pub use Int.{ℤ, pos, negsuc, negate, second}
pub use Utf8Strict.{decode_strict-encode, decode_strict-cut}
pub use Utf8.{Bytes, IsScalar, replacement}
pub use Utf8Laws.{
  low-IsScalar, decode-encode, decode_whole, encode-append, encode_some, decode-encode_char,
}
unfoldable pub use Utf8.{decode_strict, decode, encode, encode_char}
unfoldable pub use Int.{int_seconds}
pub use Prim.Native.Nat.{ℕ, zero, suc, ◌+◌, ◌-◌, ◌*◌, ◌/◌, ◌%◌, ◌^◌, ◌≤◌, ◌<◌, min, max}
pub use Prim.Native.String.{String}
pub use mathlib.Core.Path.{◌≡◌, refl, sym, ap, ◌∙◌, subst}
pub use mathlib.Core.Logic.{◌≢◌, ◌↔◌, ◌⊎◌, inl, inr}
pub use mathlib.Core.Bool.{Bool, true, false, ◌&&◌, ◌||◌, not}
pub use mathlib.Core.Option.{Option, none, some}
pub use mathlib.Core.List.{List, [], ◌∷◌, ◌++◌, map, append_assoc, append-nil}
pub use native.Mathlib.Omega.{arith}
