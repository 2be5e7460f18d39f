-- ===== src/Capsule/Pump.antt =====
-- The loop of pumpUDP in sdk/cmd/connect-proxy/main.go over the capsules that a client wrote.
use agents_net.Base.{
  ℕ, zero, suc, ◌<◌, ◌≡◌, refl, ap, ◌∙◌, inl, inr, Option, none, some, List, [], ◌∷◌, ◌++◌, arith,
  length, take, All,
}
use agents_net.Base.Bytes.{Bytes}
use agents_net.Base.Result.{Result, ok, err, Result-cases}
use agents_net.Capsule.{
  ReadError, max_capsule_payload, write_datagram, read_capsule, datagram_loop, read_varint,
  read_datagram, pump_loop, pump_upstream,
}
use agents_net.Capsule.Stream.{
  read_capsule-length, read_datagram_total, capsule, datagram_round, datagram_loop_ok,
  datagram_loop_err, write_datagram-capsule,
}
use agents_net.Capsule.Varint.{encoding}
use mathlib.Core.List.{append_assoc, append-nil}

-- The bytes of a run of WriteDatagram calls.
unfoldable pub write_datagrams : List Bytes → Option Bytes
write_datagrams [] = some []
write_datagrams (p ∷ ps) = elim (write_datagram p) [
  | none ↦ none
  | some enc ↦ elim (write_datagrams ps) [ none ↦ none | some rest ↦ some (enc ++ rest) ]
]

read_datagram-length :
    (end : ReadError) (fuel : ℕ) (s p rest : Bytes)
    → datagram_loop end fuel s ≡ some (ok (p, rest))
    → length rest < length s
unfolding datagram_loop
read_datagram-length end zero s p rest e = cc
read_datagram-length end (suc fuel) s p rest e = elim (Result-cases (read_capsule end s)) [
  | inr (x, q) ↦ ground arith
  | inl ((some payload, rest'), q) ↦
      ground (arith, read_capsule-length end s (some payload) rest' q)
  | inl ((none, rest'), q) ↦
      ground
        (arith, read_capsule-length end s none rest' q, read_datagram-length end fuel rest' p rest)
]

read_datagram_shorter :
    (end : ReadError) (s p rest : Bytes)
    → read_datagram end s ≡ some (ok (p, rest))
    → length rest < length s
unfolding read_datagram
read_datagram_shorter end s p rest e = read_datagram-length end (suc (length s)) s p rest e

pump_loop_total :
    (end : ReadError) (fuel room : ℕ) (s : Bytes) (sent : List Bytes)
    → length s < fuel
    → (r : List Bytes × Option ReadError) × (pump_loop end fuel room s sent ≡ some r)
unfolding pump_loop
pump_loop_total end zero room s sent h = absurd (omega arith)
pump_loop_total end (suc fuel) zero s sent h = let (r, p) = read_datagram_total end s in go r p
  where
    go :
        (r : Result ReadError (Bytes × Bytes))
        → read_datagram end s ≡ some r
        → (x : List Bytes × Option ReadError) × (pump_loop end (suc fuel) zero s sent ≡ some x)
    go (err e) p = ((sent, some e), rw (p, pump_loop) refl)
    go (ok (d, rest)) p = ((sent, none), rw (p, pump_loop) refl)
pump_loop_total end (suc fuel) (suc room) s sent h =
    let (r, p) = read_datagram_total end s in
    go (λ rest sent' lt. pump_loop_total end fuel room rest sent' lt) r p
  where
    go :
        ((rest : Bytes) (sent' : List Bytes)
          → length rest < fuel
          → (x : List Bytes × Option ReadError) × (pump_loop end fuel room rest sent' ≡ some x))
        → (r : Result ReadError (Bytes × Bytes)) → read_datagram end s ≡ some r
        → (x : List Bytes × Option ReadError) × (pump_loop end (suc fuel) (suc room) s sent
            ≡ some x)
    go more (err e) p = ((sent, some e), rw (p, pump_loop))
    go more (ok (d, rest)) p =
        let short = read_datagram_shorter end s d rest p in
        rw (p, pump_loop) (more rest (sent ++ d ∷ []) (omega arith))

-- The pump ends on every stream that ends.
pub pump_upstream_total :
    (end : ReadError) (room : ℕ) (s : Bytes)
    → (r : List Bytes × Option ReadError) × (pump_upstream end room s ≡ some r)
unfolding pump_upstream
pump_upstream_total end room s = pump_loop_total end (suc (length s)) room s [] (omega arith)

abbrev pub Fits : Bytes → Type 0
Fits p = length p < max_capsule_payload

abbrev pub written : List Bytes → Bytes
written [] = []
written (p ∷ ps) = capsule 0 (encoding 0 ++ p) ++ written ps

write_datagrams-written : (ps : List Bytes) → All Fits ps → write_datagrams ps ≡ some (written ps)
unfolding write_datagrams
write_datagrams-written [] h = refl
write_datagrams-written (p ∷ ps) (hp, hps) =
    rw (write_datagrams, write_datagram-capsule p (omega arith), write_datagrams-written ps hps)

pub read_capsule-nil : (end : ReadError) → read_capsule end [] ≡ err end
unfolding read_capsule read_varint
read_capsule-nil end = refl

-- How the loop ends: with the error that ends the stream when every datagram was written, and
-- otherwise at the write that failed.
abbrev pub ending : ReadError → ℕ → List Bytes → Option ReadError
ending end room [] = some end
ending end zero (p ∷ ps) = none
ending end (suc room) (p ∷ ps) = ending end room ps

pump_loop-written :
    (end : ReadError) (ps : List Bytes) (fuel room : ℕ) (sent : List Bytes)
    → All Fits ps
    → length (written ps) < fuel
    → pump_loop end fuel room (written ps) sent ≡ some (sent ++ take room ps, ending end room ps)
unfolding pump_loop read_datagram
pump_loop-written end ps zero room sent h k = absurd (omega arith)
pump_loop-written end [] (suc fuel) zero sent h k =
    rw (datagram_loop_err end _ [] end (read_capsule-nil end), pump_loop, append-nil) refl
pump_loop-written end [] (suc fuel) (suc room) sent h k =
    rw (datagram_loop_err end _ [] end (read_capsule-nil end), pump_loop, append-nil) refl
pump_loop-written end (p ∷ ps) (suc fuel) zero sent (hp, hps) k =
    rw
      (
        datagram_loop_ok end _ _ p (written ps) (datagram_round end p (written ps) hp),
        pump_loop,
        append-nil,
      )
      refl
pump_loop-written end (p ∷ ps) (suc fuel) (suc room) sent (hp, hps) k =
    let round = datagram_round end p (written ps) hp in
    let short = read_capsule-length end _ (some p) (written ps) round in
    let joined : (sent ++ p ∷ []) ++ take room ps ≡ sent ++ take (suc room) (p ∷ ps) =
      rw append_assoc refl in
    rw (datagram_loop_ok end _ _ p (written ps) round, pump_loop)
      (pump_loop-written end ps fuel room (sent ++ p ∷ []) hps (omega arith)
        ∙ ap (λ (l : List Bytes). some (l, ending end room ps)) joined)

-- Capsules that were written are delivered, each once and in order, as many as the writes that
-- succeed.
pub pump_upstream-written :
    (end : ReadError) (room : ℕ) (ps : List Bytes)
    → All Fits ps
    → pump_upstream end room (written ps) ≡ some (take room ps, ending end room ps)
unfolding pump_upstream
pump_upstream-written end room ps h = pump_loop-written end ps _ room [] h (omega arith)

-- The pump delivers the datagrams that a client wrote, each once and in order, as many as the
-- writes that succeed.
pub pump_upstream-write_datagrams :
    (end : ReadError) (room : ℕ) (ps : List Bytes)
    → All Fits ps
    → (enc : Bytes) × (write_datagrams ps ≡ some enc)
      × (pump_upstream end room enc ≡ some (take room ps, ending end room ps))
pump_upstream-write_datagrams end room ps h =
    (written ps, write_datagrams-written ps h, pump_upstream-written end room ps h)
