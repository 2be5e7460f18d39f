-- ===== src/Policy/Names.antt =====
-- validName and normalizeName of sdk/cmd/connect-proxy/policy.go.
use agents_net.Base.{
  ℕ, Bool, false, not, ◌&&◌, ◌||◌, Option, none, some, ltb, leb, ◌==◌, if◌then◌else◌, length, all,
}
use agents_net.Base.Bytes.{Bytes, codes, split, trim_suffix}
use agents_net.Base.Unicode.{to_lower}
use agents_net.Policy.{Platform}

-- A byte of a label: a-z, 0-9, hyphen, underscore.
abbrev pub is_label_byte : ℕ → Bool
is_label_byte c =
    (leb b'a' c && leb c b'z') || (leb b'0' c && leb c b'9') || (c == b'-') || (c == b'_')

abbrev pub is_empty : Bytes → Bool
is_empty s = length s == 0

abbrev pub is_label : Bytes → Bool
is_label label = not (is_empty label || ltb 63 (length label)) && all is_label_byte label

unfoldable pub valid_name : Bytes → Bool
valid_name name =
    if is_empty name || ltb 253 (length name) then false else all is_label (split b'.' name)

-- The normalized name, or `none` for a host that is none.
unfoldable pub normalize_name : Platform → Bytes → Option Bytes
normalize_name p host =
    let name = trim_suffix (to_lower p.unicode host) (codes ".") in
    if is_empty name then none else elim (p.parse_addr name) [
      | some a ↦ none
      | none ↦ elim (p.to_ascii name) [
        | none ↦ none
        | some ascii ↦ if valid_name ascii then some ascii else none
      ]
    ]
