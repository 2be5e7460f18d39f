-- ===== src/Net.antt =====
-- net.JoinHostPort and net.SplitHostPort.
pub mod Join
use agents_net.Base.{ℕ, Option, none, some, [], ◌∷◌, ◌++◌, ◌==◌, ◌||◌, if◌then◌else◌}
use agents_net.Base.Bytes.{Bytes, contains_byte, cut}

unfoldable pub join_host_port : Bytes → Bytes → Bytes
join_host_port host port =
    if contains_byte b':' host then (b'[' ∷ host) ++ (b']' ∷ b':' ∷ port) else host ++ (b':' ∷ port)

-- The text before and after the last `sep`.
unfoldable pub cut_last : ℕ → Bytes → Option (Bytes × Bytes)
cut_last sep [] = none
cut_last sep (c ∷ s) = elim (cut_last sep s) [
  | some (before, after) ↦ some (c ∷ before, after)
  | none ↦ if c == sep then some ([], s) else none
]

-- A host in brackets, and what stands between them and the last colon.
unfoldable pub split_bracketed : Bytes → Option (Bytes × Bytes)
unfolding cut cut_last
split_bracketed rest = elim (cut b']' rest) [
  | none ↦ none
  | some (host, behind) ↦ elim (cut b':' behind) [
    | some ([], port) ↦
        if contains_byte b'[' host
          || contains_byte b':' port
          || contains_byte b'[' port
          || contains_byte b']' port
        then none
        else some (host, port)
    | _ ↦ none
  ]
]

-- Every error of SplitHostPort is `none`.
unfoldable pub split_host_port : Bytes → Option (Bytes × Bytes)
unfolding split_bracketed cut_last
split_host_port [] = none
split_host_port (c ∷ s) = if c == b'[' then split_bracketed s else elim (cut_last b':' (c ∷ s)) [
  | none ↦ none
  | some (host, port) ↦
      if contains_byte b':' host || contains_byte b'[' (c ∷ s) || contains_byte b']' (c ∷ s)
      then none
      else some (host, port)
]
