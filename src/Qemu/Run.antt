-- ===== src/Qemu/Run.antt =====
-- The two loops of Run of sdk/pkg/qemuproxy/proxy.go between the socket and the network stack.
pub mod Filtered
use agents_net.Base.{
  ℕ, zero, suc, ◌+◌, Bool, true, false, not, ◌&&◌, ◌||◌, Option, none, some, List, [], ◌∷◌, ◌++◌,
  ◌==◌, ◌%◌, if◌then◌else◌, length,
}
use agents_net.Base.Bytes.{Bytes, bytes_eq}
use agents_net.Base.Result.{Result, ok, err}
use agents_net.Capsule.{ReadError}
use agents_net.Qemu.{read_frame, write_frame}

-- What package header of the network stack reads of a frame.
pub record Ethernet : Type 0 where
  pub minimum : ℕ
  pub frame_type : Bytes → ℕ
  pub destination : Bytes → Bytes
  pub is_multicast : Bytes → Bool
  pub broadcast : Bytes
  pub arp : ℕ
  pub ipv4 : ℕ
  pub ipv6 : ℕ

-- The check in front of everything: six bytes of a unicast address, and a gateway address.
unfoldable pub is_config : Bytes → ℕ → Bool
is_config [] addresses = false
is_config (first ∷ mac) addresses = (length mac == 5) && ((first % 2 == 0) && not (addresses == 0))

unfoldable pub is_handled : Ethernet → ℕ → Bool
is_handled h kind = (kind == h.arp) || ((kind == h.ipv4) || (kind == h.ipv6))

unfoldable pub is_for : Ethernet → Bytes → Bytes → Bool
unfolding bytes_eq
is_for h mac destination =
    bytes_eq destination mac || (bytes_eq destination h.broadcast || h.is_multicast destination)

-- The frames that go on to InjectInbound.
unfoldable pub accepts : Ethernet → Bytes → Bytes → Bool
unfolding is_handled is_for
accepts h mac frame = is_handled h (h.frame_type frame) && is_for h mac (h.destination frame)

-- The goroutine that reads the socket, with what it injected and the error that it ends with.
unfoldable pub inbound_loop :
    Ethernet → Bytes → ReadError → ℕ → Bytes → List Bytes → Option (List Bytes × ReadError)
unfolding accepts
inbound_loop h mac end zero s injected = none
inbound_loop h mac end (suc fuel) s injected = elim (read_frame h.minimum end s) [
  | err e ↦ some (injected, e)
  | ok (frame, rest) ↦
      inbound_loop h mac end fuel rest
        (if accepts h mac frame then injected ++ frame ∷ [] else injected)
]

unfoldable pub inbound : Ethernet → Bytes → ReadError → Bytes → Option (List Bytes × ReadError)
unfolding inbound_loop
inbound h mac end s = inbound_loop h mac end (suc (length s)) s []

-- The goroutine that writes the packets of the stack, until one is refused.
unfoldable pub outbound : ℕ → List Bytes → Bytes
unfolding write_frame
outbound minimum [] = []
outbound minimum (frame ∷ frames) = elim (write_frame minimum frame) [
  | err n ↦ []
  | ok out ↦ out ++ outbound minimum frames
]
