-- ===== src/Capsule/Stream.antt =====
-- ReadDatagram and WriteDatagram of sdk/pkg/tun2connect/capsule.go, and the pump that forwards
-- datagrams.
use agents_net.Base.{
  ℕ, zero, suc, ◌+◌, ◌^◌, ◌≤◌, ◌<◌, ◌≡◌, ◌≢◌, refl, ◌∙◌, ◌⊎◌, inl, inr, Option, none, false, true,
  some, [], ◌∷◌, ◌++◌, arith, ltb, if◌then◌else◌, length, Bool-cases, length-append, length-drop,
  ◌==◌, take-append_length, drop-append_length,
}
use agents_net.Base.Bytes.{Bytes}
use agents_net.Base.Result.{Result, ok, err, Result-cases}
use agents_net.Capsule.{
  ReadError, eof, capsule_too_long, max_capsule_payload, append_varint, varint_bytes, read_varint,
  read_full, write_datagram, capsule_payload, read_capsule, datagram_loop, read_datagram,
}
use agents_net.Capsule.Varint.{encoding, append_varint-encoding, read_varint-encoding}
use mathlib.Core.List.{append_assoc}

-- appendVarint keeps the buffer and appends an encoding that readVarint reads back, whatever
-- follows it on the stream.
pub read_varint-append_varint :
    (end : ReadError) (b : Bytes) (v : ℕ) (rest : Bytes)
    → v < 2 ^ 62
    → (enc : Bytes) × (append_varint b v ≡ some (b ++ enc))
      × (read_varint end (enc ++ rest) ≡ ok (v, rest))
read_varint-append_varint end b v rest h =
    (encoding v, append_varint-encoding b v h, read_varint-encoding end v rest h)

varint_bytes-length :
    (end : ReadError) (n v : ℕ) (s : Bytes) (r : ℕ) (rest : Bytes)
    → varint_bytes end n v s ≡ ok (r, rest)
    → length rest ≤ length s
unfolding varint_bytes
varint_bytes-length end zero v s r rest e = ground arith
varint_bytes-length end (suc n) v [] r rest e = cc
varint_bytes-length end (suc n) v (b ∷ s) r rest e =
    omega (arith, varint_bytes-length end n _ s r rest e)

read_varint-length :
    (end : ReadError) (s : Bytes) (r : ℕ) (rest : Bytes)
    → read_varint end s ≡ ok (r, rest)
    → length rest < length s
unfolding read_varint
read_varint-length end [] r rest e = cc
read_varint-length end (b ∷ s) r rest e = omega (arith, varint_bytes-length end _ _ s r rest e)

read_full-length :
    (end : ReadError) (n : ℕ) (s value rest : Bytes)
    → read_full end n s ≡ ok (value, rest)
    → length rest ≤ length s
unfolding read_full
read_full-length end n [] value rest e = ground arith
read_full-length end n (b ∷ s) value rest e = ground (arith, length-drop n (b ∷ s))

-- A round that does not fail takes two bytes at least.
pub read_capsule-length :
    (end : ReadError) (s : Bytes) (payload : Option Bytes) (rest : Bytes)
    → read_capsule end s ≡ ok (payload, rest)
    → length rest + 2 ≤ length s
unfolding read_capsule
read_capsule-length end s payload rest e = elim (Result-cases (read_varint end s)) [
  | inr (x, p) ↦ ground arith
  | inl ((ctype, s₁), p) ↦ elim (Result-cases (read_varint end s₁)) [
    | inr (x, q) ↦ ground arith
    | inl ((clen, s₂), q) ↦ elim (Result-cases (read_full end clen s₂)) [
      | inr (x, r) ↦ ground arith
      | inl ((value, s₃), r) ↦ ground (
        arith,
        read_varint-length end s ctype s₁ p,
        read_varint-length end s₁ clen s₂ q,
        read_full-length end clen s₂ value s₃ r,
      )
    ]
  ]
]

-- The bytes of one capsule: type, length, value.
abbrev pub capsule : ℕ → Bytes → Bytes
capsule ctype value = encoding ctype ++ (encoding (length value) ++ value)

pub read_full-append :
    (end : ReadError) (value rest : Bytes)
    → read_full end (length value) (value ++ rest) ≡ ok (value, rest)
unfolding read_full
read_full-append end [] [] = refl
read_full-append end [] (r ∷ rest) = ground arith
read_full-append end (b ∷ value) rest = ground (
  arith,
  length-append (b ∷ value) rest,
  take-append_length (b ∷ value) rest,
  drop-append_length (b ∷ value) rest,
)

read_capsule-capsule :
    (end : ReadError) (ctype : ℕ) (value rest : Bytes)
    → ctype < 2 ^ 62
    → length value ≤ max_capsule_payload
    → read_capsule end (capsule ctype value ++ rest)
      ≡ elim (capsule_payload ctype value) [ err e ↦ err e | ok p ↦ ok (p, rest) ]
unfolding read_capsule
read_capsule-capsule end ctype value rest h k =
    let small : ltb max_capsule_payload (length value) ≡ false = ground arith in
    rw
      (
        append_assoc,
        append_assoc,
        read_varint-encoding end ctype _ h,
        read_varint-encoding end (length value) _ (omega arith),
        small,
        read_full-append,
      )
      (ground arith)

-- One round of the loop, by what it reads.
module _ (end : ReadError) (fuel : ℕ) (s : Bytes) where
  pub datagram_loop_err :
      (x : ReadError) → read_capsule end s ≡ err x → datagram_loop end (suc fuel) s ≡ some (err x)
  unfolding datagram_loop
  datagram_loop_err x e = rw (e, datagram_loop)

  pub datagram_loop_ok :
      (p rest : Bytes)
      → read_capsule end s ≡ ok (some p, rest)
      → datagram_loop end (suc fuel) s ≡ some (ok (p, rest))
  unfolding datagram_loop
  datagram_loop_ok p rest e = rw (e, datagram_loop)

  datagram_loop_skip :
      (rest : Bytes)
      → read_capsule end s ≡ ok (none, rest)
      → datagram_loop end (suc fuel) s ≡ datagram_loop end fuel rest
  unfolding datagram_loop
  datagram_loop_skip rest e = rw (e, datagram_loop)

datagram_loop_total :
    (end : ReadError) (fuel : ℕ) (s : Bytes)
    → length s < fuel
    → (r : Result ReadError (Bytes × Bytes)) × (datagram_loop end fuel s ≡ some r)
datagram_loop_total end zero s h = absurd (omega arith)
datagram_loop_total end (suc fuel) s h = elim (Result-cases (read_capsule end s)) [
  | inr (x, p) ↦ (err x, datagram_loop_err end fuel s x p)
  | inl ((some payload, rest), p) ↦ (ok (payload, rest), datagram_loop_ok end fuel s payload rest p)
  | inl ((none, rest), p) ↦
      rw (datagram_loop_skip end fuel s rest p)
        (datagram_loop_total end fuel rest (omega (arith, read_capsule-length end s none rest p)))
]

-- ReadDatagram returns on every stream: a datagram or an error.
pub read_datagram_total :
    (end : ReadError) (s : Bytes)
    → (r : Result ReadError (Bytes × Bytes)) × (read_datagram end s ≡ some r)
unfolding read_datagram
read_datagram_total end s = datagram_loop_total end (suc (length s)) s (omega arith)

datagram_loop_fuel :
    (end : ReadError) (f g : ℕ) (s : Bytes)
    → length s < f
    → length s < g
    → datagram_loop end f s ≡ datagram_loop end g s
datagram_loop_fuel end zero g s h k = absurd (omega arith)
datagram_loop_fuel end (suc f) zero s h k = absurd (omega arith)
datagram_loop_fuel end (suc f) (suc g) s h k = elim (Result-cases (read_capsule end s)) [
  | inr (x, p) ↦ cc (datagram_loop_err end f s x p, datagram_loop_err end g s x p)
  | inl ((some payload, rest), p) ↦
      cc (datagram_loop_ok end f s payload rest p, datagram_loop_ok end g s payload rest p)
  | inl ((none, rest), p) ↦
      let short = read_capsule-length end s none rest p in
      let same = datagram_loop_fuel end f g rest (omega arith) (omega arith) in
      cc (datagram_loop_skip end f s rest p, datagram_loop_skip end g s rest p, same)
]

-- What RFC 9297 and RFC 9298 let a reader ignore: another capsule type, or another context.
abbrev pub IsSkipped : ℕ → Bytes → Type 0
IsSkipped ctype value =
    (ctype ≢ 0)
    ⊎ ((ctx : ℕ) × (p : Bytes) × (0 < ctx) × (ctx < 2 ^ 62) × (value ≡ encoding ctx ++ p))

capsule_payload_skipped :
    (ctype : ℕ) (value : Bytes) → IsSkipped ctype value → capsule_payload ctype value ≡ ok none
unfolding capsule_payload
capsule_payload_skipped ctype value (inl other) = ground arith
capsule_payload_skipped ctype value (inr (ctx, p, pos, lt, e)) = elim (Bool-cases (ctype == 0)) [
  | inl datagram ↦ rw (datagram, e, read_varint-encoding eof ctx p lt) (ground arith)
  | inr other ↦ rw other
]

-- A capsule of another type or context, of a length within the limit, leaves no trace: the
-- reader answers what it answers on the stream behind it.
pub read_datagram_skips :
    (end : ReadError) (ctype : ℕ) (value rest : Bytes)
    → ctype < 2 ^ 62
    → length value ≤ max_capsule_payload
    → IsSkipped ctype value
    → read_datagram end (capsule ctype value ++ rest) ≡ read_datagram end rest
unfolding read_datagram
read_datagram_skips end ctype value rest h k skip =
    let round = read_capsule-capsule end ctype value rest h k in
    let here : read_capsule end (capsule ctype value ++ rest) ≡ ok (none, rest) =
      round ∙ rw (capsule_payload_skipped ctype value skip) in
    let short = read_capsule-length end _ none rest here in
    datagram_loop_skip end _ _ rest here
    ∙ datagram_loop_fuel end _ _ rest (omega arith) (omega arith)

-- WriteDatagram writes one capsule of type 0, its value the context 0 and the payload.
pub write_datagram-capsule :
    (p : Bytes) → length p + 1 < 2 ^ 62 → write_datagram p ≡ some (capsule 0 (encoding 0 ++ p))
unfolding write_datagram
write_datagram-capsule p h =
    let size : length (encoding 0 ++ p) ≡ length p + 1 = unfold encoding in omega arith in
    rw
      (
        write_datagram,
        append_varint-encoding [] 0 (omega arith),
        append_varint-encoding (encoding 0) (length p + 1) h,
        append_varint-encoding (encoding 0 ++ encoding (length p + 1)) 0 (omega arith),
        size,
      )
      (rw (append_assoc (encoding 0 ++ encoding (length p + 1)) (encoding 0) p, append_assoc))

pub datagram_round :
    (end : ReadError) (p rest : Bytes)
    → length p < max_capsule_payload
    → read_capsule end (capsule 0 (encoding 0 ++ p) ++ rest) ≡ ok (some p, rest)
datagram_round end p rest h =
    let size : length (encoding 0 ++ p) ≡ length p + 1 = unfold encoding in omega arith in
    let payload : capsule_payload 0 (encoding 0 ++ p) ≡ ok (some p) =
      unfold capsule_payload in rw (read_varint-encoding eof 0 p (omega arith)) in
    read_capsule-capsule end 0 (encoding 0 ++ p) rest (omega arith) (omega arith) ∙ rw payload

datagram_too_long :
    (end : ReadError) (p rest : Bytes)
    → max_capsule_payload ≤ length p
    → length p + 1 < 2 ^ 62
    → read_capsule end (capsule 0 (encoding 0 ++ p) ++ rest) ≡ err (capsule_too_long (length p + 1))
unfolding read_capsule
datagram_too_long end p rest h k =
    let size : length (encoding 0 ++ p) ≡ length p + 1 = unfold encoding in omega arith in
    let long : ltb max_capsule_payload (length p + 1) ≡ true = ground arith in
    rw (
      size,
      append_assoc,
      append_assoc,
      read_varint-encoding end 0 _ (omega arith),
      read_varint-encoding end (length p + 1) _ k,
      long,
    )

-- What WriteDatagram writes, ReadDatagram reads back and leaves what follows it, if the payload
-- is shorter than 65536 bytes; a longer payload is written all the same, and refused by the reader.
pub read_datagram-write_datagram :
    (end : ReadError) (p rest : Bytes)
    → length p + 1 < 2 ^ 62
    → (enc : Bytes) × (write_datagram p ≡ some enc)
      × (read_datagram end (enc ++ rest)
          ≡ some (
              if ltb (length p) max_capsule_payload
              then ok (p, rest)
              else err (capsule_too_long (length p + 1))))
unfolding read_datagram
read_datagram-write_datagram end p rest h = (
  capsule 0 (encoding 0 ++ p),
  write_datagram-capsule p h,
  elim (Bool-cases (ltb (length p) max_capsule_payload)) [
    | inl fits ↦
        rw fits (datagram_loop_ok end _ _ p rest (datagram_round end p rest (ground arith)))
    | inr long ↦
        rw long (datagram_loop_err end _ _ _ (datagram_too_long end p rest (ground arith) h))
  ],
)
