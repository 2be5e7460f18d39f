-- ===== src/Qemu/Frames.antt =====
-- Frames written and read back: sdk/pkg/qemuproxy/proxy.go.
use agents_net.Base.{
  ℕ, ◌/◌, ◌%◌, ◌^◌, ◌<◌, ◌≡◌, refl, ◌∙◌, true, false, [], ◌∷◌, ◌++◌, arith, length, Bool-cases, inl,
  inr,
}
use agents_net.Base.Bytes.{Bytes}
use agents_net.Base.Result.{Result, ok, err}
use agents_net.Capsule.{ReadError, big_endian, read_full}
use mathlib.Core.List.{append_assoc}
use agents_net.Capsule.Stream.{read_full-append}
use agents_net.Qemu.{is_frame_length, max_frame_size, uint32, write_frame, read_frame}

uint32-big_endian : (n : ℕ) → n < 2 ^ 32 → uint32 (big_endian 4 n) ≡ n
unfolding big_endian
uint32-big_endian n h = omega arith

-- The four bytes of a length, one and three at a time.
prefix_read :
    (minimum : ℕ) (end : ReadError) (n : ℕ) (s : Bytes)
    → n < 2 ^ 32
    → is_frame_length minimum n ≡ true
    → read_frame minimum end (big_endian 4 n ++ s) ≡ read_full end n s
unfolding read_frame big_endian
prefix_read minimum end n s h fits =
    let front = n / 256 ^ 3 % 256 in
    let first : read_full end 1 (big_endian 4 n ++ s) ≡ ok (front ∷ [], big_endian 3 n ++ s) =
      read_full-append end (front ∷ []) (big_endian 3 n ++ s) in
    let others : read_full end 3 (big_endian 3 n ++ s) ≡ ok (big_endian 3 n, s) =
      read_full-append end (big_endian 3 n) s in
    rw (first, others, uint32-big_endian n h, fits) refl

-- What comes of writing a frame in front of the rest of a stream.
abbrev pub IsWritten : ℕ → ReadError → Bytes → Bytes → Result ℕ Bytes → Type 0
IsWritten minimum end frame rest (ok out) =
    (is_frame_length minimum (length frame) ≡ true)
    × (read_frame minimum end (out ++ rest) ≡ ok (frame, rest))
IsWritten minimum end frame rest (err n) =
    (is_frame_length minimum (length frame) ≡ false) × (n ≡ length frame)

-- writeFrame refuses a frame exactly when its length is out of bounds, with that length, and
-- what it writes for another one readFrame takes back, in front of any rest of the stream, when
-- the largest frame size fits 32 bits.
pub read_frame-write_frame :
    (minimum : ℕ) (end : ReadError) (frame rest : Bytes)
    → max_frame_size minimum < 2 ^ 32
    → IsWritten minimum end frame rest (write_frame minimum frame)
unfolding write_frame
read_frame-write_frame minimum end frame rest high =
    elim (Bool-cases (is_frame_length minimum (length frame))) [
      | inr wrong ↦ rw (wrong, write_frame) (wrong, refl)
      | inl fits ↦
          let small : length frame < 2 ^ 32 = ground (arith, fits) in
          let whole : length frame % 2 ^ 32 ≡ length frame = omega arith in
          let taken : read_frame minimum end ((big_endian 4 (length frame) ++ frame) ++ rest)
              ≡ ok (frame, rest) =
            rw append_assoc (
              prefix_read minimum end (length frame) (frame ++ rest) small fits
              ∙ read_full-append end frame rest) in
          rw (fits, whole, write_frame) (fits, taken)
    ]
