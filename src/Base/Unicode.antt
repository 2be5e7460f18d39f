-- ===== src/Base/Unicode.antt =====
-- strings.ToLower, strings.EqualFold and strings.TrimSpace. Text that is ASCII is handled byte by byte, as package
-- strings does; for other text the functions go by the Unicode tables, which are a parameter.
use agents_net.Base.Tests.{leb, ltb, ◌==◌, if◌then◌else◌}
use agents_net.Base.Lists.{all}
use agents_net.Base.Bytes.{Bytes, bytes_eq, trim}
use Prim.Native.Nat.{ℕ, ◌+◌}
use mathlib.Core.Bool.{Bool, ◌&&◌, ◌||◌}
use mathlib.Core.List.{map}

-- What the tables answer for text with a byte of 128 or more.
pub record Unicode : Type 0 where
  pub lower : Bytes → Bytes
  pub equal_fold : Bytes → Bytes → Bool
  pub trim_space : Bytes → Bytes

abbrev pub is_ascii : Bytes → Bool
is_ascii s = all (λ c. ltb c 128) s

abbrev pub lower_byte : ℕ → ℕ
lower_byte c = if leb b'A' c && leb c b'Z' then c + 32 else c

unfoldable pub to_lower : Unicode → Bytes → Bytes
to_lower u s = if is_ascii s then map lower_byte s else u.lower s

unfoldable pub equal_fold : Unicode → Bytes → Bytes → Bool
unfolding bytes_eq
equal_fold u s t =
    if is_ascii s && is_ascii t
    then bytes_eq (map lower_byte s) (map lower_byte t)
    else u.equal_fold s t

-- Tab, line feed, vertical tab, form feed, carriage return, space.
abbrev pub is_space : ℕ → Bool
is_space c = (leb 9 c && leb c 13) || (c == 32)

unfoldable pub trim_space : Unicode → Bytes → Bytes
trim_space u s = if is_ascii s then trim is_space s else u.trim_space s
