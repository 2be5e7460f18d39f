-- ===== src/Capsule.antt =====
-- sdk/pkg/tun2connect/capsule.go: QUIC variable-length integers and DATAGRAM capsules on a
-- reliable stream, and the sending half of pumpUDP in sdk/cmd/connect-proxy/main.go.
-- A stream is the bytes it still delivers and the error that it ends with.
pub mod Varint
pub mod Stream
pub mod Pump
use agents_net.Base.{
  ℕ, zero, suc, ◌+◌, ◌-◌, ◌*◌, ◌/◌, ◌%◌, ◌^◌, Option, none, some, List, [], ◌∷◌, ◌++◌, ltb, leb,
  ◌==◌, if◌then◌else◌, length, take, drop,
}
use agents_net.Base.Bytes.{Bytes}
use agents_net.Base.Result.{Result, ok, err, ◌>>=◌, ◌>>◌}
use Prim.Native.Nat.{bit_and, bit_or}

-- The errors of a read. `closed` stands for any error of the stream other than io.EOF.
pub data ReadError : Type 0 where
  eof unexpected_eof closed malformed_datagram : ReadError
  capsule_too_long : ℕ → ReadError
  -- A frame of the QEMU socket whose length is out of bounds.
  frame_length : ℕ → ReadError

abbrev pub capsule_type_datagram : ℕ
capsule_type_datagram = 0

abbrev pub max_capsule_payload : ℕ
max_capsule_payload = 65536

-- The big-endian bytes of a number: binary.BigEndian.AppendUint16, AppendUint32, AppendUint64.
unfoldable pub big_endian : ℕ → ℕ → Bytes
big_endian zero v = []
big_endian (suc k) v = (v / 256 ^ k % 256) ∷ big_endian k v

-- `none` is the panic of a value that has no encoding.
unfoldable pub append_varint : Bytes → ℕ → Option Bytes
unfolding big_endian
append_varint b v =
    if ltb v (2 ^ 6)
    then some (b ++ (v % 256) ∷ [])
    else if ltb v (2 ^ 14)
    then some (b ++ big_endian 2 (bit_or (v % 2 ^ 16) 0x4000))
    else if ltb v (2 ^ 30)
    then some (b ++ big_endian 4 (bit_or (v % 2 ^ 32) 0x8000_0000))
    else if ltb v (2 ^ 62)
    then some (b ++ big_endian 8 (bit_or v 0xc000_0000_0000_0000))
    else none

-- An end of file inside an item is io.ErrUnexpectedEOF.
abbrev pub unexpected : ReadError → ReadError
unexpected eof = unexpected_eof
unexpected e = e

-- The first argument of the readers is the error that the stream ends with.
-- The loop of readVarint, over the rounds that are left.
unfoldable pub varint_bytes : ReadError → ℕ → ℕ → Bytes → Result ReadError (ℕ × Bytes)
varint_bytes end zero v s = ok (v, s)
varint_bytes end (suc n) v [] = err (unexpected end)
varint_bytes end (suc n) v (b ∷ s) = varint_bytes end n (bit_or (v * 256 % 2 ^ 64) b) s

unfoldable pub read_varint : ReadError → Bytes → Result ReadError (ℕ × Bytes)
unfolding varint_bytes
read_varint end [] = err end
read_varint end (b₀ ∷ s) = varint_bytes end (2 ^ (b₀ / 2 ^ 6) - 1) (bit_and b₀ 0x3f) s

-- io.ReadFull of `n` bytes.
unfoldable pub read_full : ReadError → ℕ → Bytes → Result ReadError (Bytes × Bytes)
read_full end n [] = if n == 0 then ok ([], []) else err end
read_full end n (b ∷ s) =
    if leb n (length (b ∷ s)) then ok (take n (b ∷ s), drop n (b ∷ s)) else err (unexpected end)

-- WriteDatagram: the bytes of its one call of Write; `none` is a panic of appendVarint.
unfoldable pub write_datagram : Bytes → Option Bytes
write_datagram p = elim (append_varint [] capsule_type_datagram) [
  | none ↦ none
  | some buf ↦ elim (append_varint buf (length p + 1)) [
    | none ↦ none
    | some buf' ↦ elim (append_varint buf' 0) [ none ↦ none | some buf'' ↦ some (buf'' ++ p) ]
  ]
]

-- The payload of a capsule that the reader understands, `none` for one that it skips.
unfoldable pub capsule_payload : ℕ → Bytes → Result ReadError (Option Bytes)
capsule_payload ctype value =
    if ctype == capsule_type_datagram
    then elim (read_varint eof value) [
      | err e ↦ err malformed_datagram
      | ok (ctx_id, rest) ↦ if ctx_id == 0 then ok (some rest) else ok none
    ]
    else ok none

-- One round of the loop of ReadDatagram.
unfoldable pub read_capsule : ReadError → Bytes → Result ReadError (Option Bytes × Bytes)
read_capsule end s₀ = do
  (ctype, s₁) ← read_varint end s₀
  (clen, s₂) ← read_varint end s₁
  if ltb max_capsule_payload clen then err (capsule_too_long clen) else ok tt
  (value, s₃) ← read_full end clen s₂
  payload ← capsule_payload ctype value
  ok (payload, s₃)

-- The loop of ReadDatagram; `none` is fuel that ran out.
unfoldable pub datagram_loop : ReadError → ℕ → Bytes → Option (Result ReadError (Bytes × Bytes))
datagram_loop end zero s = none
datagram_loop end (suc fuel) s = elim (read_capsule end s) [
  | err e ↦ some (err e)
  | ok (some p, rest) ↦ some (ok (p, rest))
  | ok (none, rest) ↦ datagram_loop end fuel rest
]

-- Each round takes two bytes at least.
unfoldable pub read_datagram : ReadError → Bytes → Option (Result ReadError (Bytes × Bytes))
read_datagram end s = datagram_loop end (suc (length s)) s

-- The loop of pumpUDP that forwards datagrams to the upstream, of which `room` writes succeed:
-- those that were written, and the read error that ends it, or none at a write that fails.
unfoldable pub pump_loop :
    ReadError → ℕ → ℕ → Bytes → List Bytes → Option (List Bytes × Option ReadError)
pump_loop end zero room s sent = none
pump_loop end (suc fuel) zero s sent = elim (read_datagram end s) [
  | none ↦ none
  | some (err e) ↦ some (sent, some e)
  | some (ok (p, rest)) ↦ some (sent, none)
]
pump_loop end (suc fuel) (suc room) s sent = elim (read_datagram end s) [
  | none ↦ none
  | some (err e) ↦ some (sent, some e)
  | some (ok (p, rest)) ↦ pump_loop end fuel room rest (sent ++ p ∷ [])
]

unfoldable pub pump_upstream : ReadError → ℕ → Bytes → Option (List Bytes × Option ReadError)
pump_upstream end room s = pump_loop end (suc (length s)) room s []
