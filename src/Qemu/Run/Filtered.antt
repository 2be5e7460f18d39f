-- ===== src/Qemu/Run/Filtered.antt =====
-- Frames through the loops of Run of sdk/pkg/qemuproxy/proxy.go.
use mathlib.Core.Path.{subst}
use mathlib.Core.List.{append_assoc, append-nil}
use agents_net.Base.{
  ℕ, zero, suc, ◌+◌, ◌%◌, ◌^◌, ◌<◌, ◌≤◌, ◌≡◌, refl, ◌∙◌, inl, inr, Bool, true, false, Option, some,
  List, [], ◌∷◌, ◌++◌, if◌then◌else◌, arith, length, length-append, length-drop, All, Bool-cases,
}
use agents_net.Base.Bytes.{Bytes}
use agents_net.Base.Result.{Result, ok, err, bound_value, Result-cases}
use agents_net.Capsule.{ReadError, big_endian, read_full}
use agents_net.Qemu.{is_frame_length, uint32, max_frame_size, read_frame, write_frame}
use agents_net.Qemu.Frames.{IsWritten, read_frame-write_frame}
use agents_net.Qemu.Run.{Ethernet, accepts, inbound_loop, inbound, outbound}

abbrev pub only : (Bytes → Bool) → List Bytes → List Bytes
only p [] = []
only p (x ∷ xs) = if p x then x ∷ only p xs else only p xs

abbrev pub FitsFrame : ℕ → Bytes → Type 0
FitsFrame minimum frame = is_frame_length minimum (length frame) ≡ true

write_frame-ok :
    (minimum : ℕ) (frame : Bytes)
    → FitsFrame minimum frame
    → (out : Bytes) × (write_frame minimum frame ≡ ok out) × (0 < length out)
unfolding write_frame big_endian
write_frame-ok minimum frame fits =
    (big_endian 4 (length frame % 2 ^ 32) ++ frame, rw (fits, write_frame) refl, omega arith)

read_back :
    (minimum : ℕ) (end : ReadError) (frame out rest : Bytes)
    → max_frame_size minimum < 2 ^ 32
    → write_frame minimum frame ≡ ok out
    → read_frame minimum end (out ++ rest) ≡ ok (frame, rest)
read_back minimum end frame out rest high h =
    (subst (IsWritten minimum end frame rest) h
      (read_frame-write_frame minimum end frame rest high)).1

read_frame-nil : (minimum : ℕ) (end : ReadError) → read_frame minimum end [] ≡ err end
unfolding read_frame read_full
read_frame-nil minimum end = refl

inbound_loop-outbound :
    (h : Ethernet) (mac : Bytes) (end : ReadError) (frames : List Bytes) (fuel : ℕ)
    (injected : List Bytes)
    → max_frame_size h.minimum < 2 ^ 32
    → All (FitsFrame h.minimum) frames
    → length (outbound h.minimum frames) < fuel
    → inbound_loop h mac end fuel (outbound h.minimum frames) injected
      ≡ some (injected ++ only (accepts h mac) frames, end)
unfolding inbound_loop outbound
inbound_loop-outbound h mac end frames zero injected high fits enough = absurd (omega arith)
inbound_loop-outbound h mac end [] (suc fuel) injected high fits enough =
    rw (read_frame-nil h.minimum end, inbound_loop, append-nil) refl
inbound_loop-outbound h mac end (frame ∷ frames) (suc fuel) injected high (f, fits) enough =
    let (out, written, some_bytes) = write_frame-ok h.minimum frame f in
    let back = read_back h.minimum end frame out (outbound h.minimum frames) high written in
    let enough' = rw (written, outbound) at enough in
    rw (written, outbound, back, inbound_loop)
      (inbound_loop-outbound h mac end frames fuel _ high fits
          (omega (arith, enough', length-append out (outbound h.minimum frames)))
        ∙ kept (accepts h mac frame))
  where
    kept :
        (b : Bool)
        → ◌≡◌ {A = Option (List Bytes × ReadError)}
            (some (
              (if b then injected ++ frame ∷ [] else injected) ++ only (accepts h mac) frames,
              end,
            ))
            (some (
              injected
                  ++ (if b
                      then frame ∷ only (accepts h mac) frames
                      else only (accepts h mac) frames),
              end,
            ))
    kept true = rw append_assoc refl
    kept false = refl

-- Of the frames that one side writes to the socket, when each has a length within the bounds,
-- the other injects exactly those of a protocol that is handled and of a destination that is its
-- own, broadcast or multicast, each once and in order, and then ends with the error that ends
-- the stream.
pub inbound-outbound :
    (h : Ethernet) (mac : Bytes) (end : ReadError) (frames : List Bytes)
    → max_frame_size h.minimum < 2 ^ 32
    → All (FitsFrame h.minimum) frames
    → inbound h mac end (outbound h.minimum frames) ≡ some (only (accepts h mac) frames, end)
unfolding inbound
inbound-outbound h mac end frames high fits =
    inbound_loop-outbound h mac end frames (suc (length (outbound h.minimum frames))) [] high fits
      (omega arith)

read_full-taken :
    (end : ReadError) (n : ℕ) (s value rest : Bytes)
    → read_full end n s ≡ ok (value, rest)
    → length rest + n ≤ length s
unfolding read_full
read_full-taken end n [] value rest e = ground arith
read_full-taken end n (b ∷ s) value rest e = ground (arith, length-drop n (b ∷ s))

read_frame-length :
    (minimum : ℕ) (end : ReadError) (s frame rest : Bytes)
    → read_frame minimum end s ≡ ok (frame, rest)
    → length rest < length s
unfolding read_frame
read_frame-length minimum end s frame rest e =
    let ((first, s₁), p, e₁) = bound_value (read_full end 1 s) e in
    let ((others, s₂), q, e₂) = bound_value (read_full end 3 s₁) e₁ in
    elim (Bool-cases (is_frame_length minimum (uint32 (first ++ others)))) [
      | inl fits ↦ omega (
        arith,
        read_full-taken end 1 s first s₁ p,
        read_full-taken end 3 s₁ others s₂ q,
        read_full-taken end (uint32 (first ++ others)) s₂ frame rest (rw fits at e₂),
      )
      | inr wrong ↦ let x = rw wrong at e₂ in absurd (erred x)
    ]
  where
    erred :
        {x : ReadError} → ◌≡◌ {A = Result ReadError (Bytes × Bytes)} (err x) (ok (frame, rest)) → ⊥
    erred q = cc

inbound_loop_total :
    (h : Ethernet) (mac : Bytes) (end : ReadError) (fuel : ℕ) (s : Bytes) (injected : List Bytes)
    → length s < fuel
    → (r : List Bytes × ReadError) × (inbound_loop h mac end fuel s injected ≡ some r)
unfolding inbound_loop
inbound_loop_total h mac end zero s injected k = absurd (omega arith)
inbound_loop_total h mac end (suc fuel) s injected k =
    elim (Result-cases (read_frame h.minimum end s)) [
      | inr (e, p) ↦ ((injected, e), rw (p, inbound_loop) refl)
      | inl ((frame, rest), p) ↦
          rw (p, inbound_loop)
            (inbound_loop_total h mac end fuel rest _
              (omega (arith, read_frame-length h.minimum end s frame rest p)))
    ]

-- The loop that reads the socket ends on every stream that ends.
pub inbound_total :
    (h : Ethernet) (mac : Bytes) (end : ReadError) (s : Bytes)
    → (r : List Bytes × ReadError) × (inbound h mac end s ≡ some r)
unfolding inbound
inbound_total h mac end s = inbound_loop_total h mac end (suc (length s)) s [] (omega arith)
