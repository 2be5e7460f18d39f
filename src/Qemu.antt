-- ===== src/Qemu.antt =====
-- readFrame and writeFrame of sdk/pkg/qemuproxy/proxy.go: Ethernet frames on a stream socket.
-- The smallest size of a frame, header.EthernetMinimumSize, is a parameter.
pub mod Frames
pub mod Run
use agents_net.Base.{
  ℕ, ◌+◌, ◌*◌, ◌^◌, ◌%◌, ◌||◌, not, Bool, true, false, Option, none, some, List, [], ◌∷◌, ◌++◌, ltb,
  if◌then◌else◌, length,
}
use agents_net.Base.Bytes.{Bytes}
use agents_net.Base.Result.{Result, ok, err, ◌>>=◌, ◌>>◌}
use agents_net.Capsule.{ReadError, frame_length, big_endian, read_full}

abbrev pub mtu : ℕ
mtu = 1500

abbrev pub max_frame_size : ℕ → ℕ
max_frame_size minimum = mtu + minimum

-- binary.BigEndian.Uint32 on the four bytes of a prefix.
abbrev pub uint32 : Bytes → ℕ
uint32 (a ∷ b ∷ c ∷ d ∷ _) = a * 256 ^ 3 + b * 256 ^ 2 + c * 256 + d
uint32 _ = 0

abbrev pub is_frame_length : ℕ → ℕ → Bool
is_frame_length minimum n = not (ltb n minimum || ltb (max_frame_size minimum) n)

-- The bytes that reach the socket, or the length of a frame that is refused.
unfoldable pub write_frame : ℕ → Bytes → Result ℕ Bytes
unfolding big_endian
write_frame minimum frame =
    if is_frame_length minimum (length frame)
    then ok (big_endian 4 (length frame % 2 ^ 32) ++ frame)
    else err (length frame)

-- The first byte is read without a deadline, the others with one.
unfoldable pub read_frame : ℕ → ReadError → Bytes → Result ReadError (Bytes × Bytes)
read_frame minimum end s = do
  (first, s₁) ← read_full end 1 s
  (others, s₂) ← read_full end 3 s₁
  let size = uint32 (first ++ others)
  if is_frame_length minimum size then ok tt else err (frame_length size)
  read_full end size s₂
