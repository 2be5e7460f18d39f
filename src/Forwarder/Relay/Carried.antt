-- ===== src/Forwarder/Relay/Carried.antt =====
-- Datagrams through RelayUDP of sdk/pkg/tun2connect/forwarder.go and pumpUDP of
-- sdk/cmd/connect-proxy/main.go.
use mathlib.Core.List.{append_assoc, append-nil}
use agents_net.Base.{
  ℕ, zero, suc, ◌≤◌, ◌<◌, ◌≡◌, refl, ◌∙◌, some, List, [], ◌∷◌, ◌++◌, map, length, take, arith, All,
}
use agents_net.Base.Bytes.{Bytes}
use agents_net.Capsule.{ReadError, read_datagram, pump_upstream}
use agents_net.Capsule.Stream.{
  read_capsule-length, datagram_round, datagram_loop_ok, datagram_loop_err, write_datagram-capsule,
}
use agents_net.Capsule.Pump.{Fits, written, pump_upstream-written, ending, read_capsule-nil}
use agents_net.Forwarder.Relay.{upload, download_loop, download, pump_downstream}

length-take : (n : ℕ) (s : Bytes) → length (take n s) ≤ n
length-take zero s = omega arith
length-take (suc n) [] = omega arith
length-take (suc n) (x ∷ s) = omega (arith, length-take n s)

-- What a buffer of 65535 bytes holds of a datagram.
abbrev pub cut_off : Bytes → Bytes
cut_off = take 65535

cut_off-Fits : (p : Bytes) → Fits (cut_off p)
cut_off-Fits p = omega (arith, length-take 65535 p)

carried-Fits : (room : ℕ) (ps : List Bytes) → All Fits (take room (map cut_off ps))
carried-Fits zero ps = tt
carried-Fits (suc room) [] = tt
carried-Fits (suc room) (p ∷ ps) = (cut_off-Fits p, carried-Fits room ps)

upload-written :
    (room : ℕ) (ps : List Bytes) → upload room ps ≡ written (take room (map cut_off ps))
unfolding upload
upload-written zero [] = refl
upload-written (suc room) [] = refl
upload-written zero (p ∷ ps) = refl
upload-written (suc room) (p ∷ ps) =
    rw
      (
        write_datagram-capsule (cut_off p) (omega (arith, length-take 65535 p)),
        upload,
        upload-written room ps,
      )
      refl

pump_downstream-upload : (room : ℕ) (ps : List Bytes) → pump_downstream room ps ≡ upload room ps
unfolding pump_downstream upload
pump_downstream-upload zero [] = refl
pump_downstream-upload (suc room) [] = refl
pump_downstream-upload zero (p ∷ ps) = refl
pump_downstream-upload (suc room) (p ∷ ps) =
    rw
      (
        write_datagram-capsule (cut_off p) (omega (arith, length-take 65535 p)),
        pump_downstream,
        upload,
        pump_downstream-upload room ps,
      )
      refl

download_loop-written :
    (end : ReadError) (ps : List Bytes) (fuel room : ℕ) (sent : List Bytes)
    → All Fits ps
    → length (written ps) < fuel
    → download_loop end fuel room (written ps) sent ≡ some (sent ++ take room ps)
unfolding download_loop read_datagram
download_loop-written end ps zero room sent h k = absurd (omega arith)
download_loop-written end [] (suc fuel) zero sent h k =
    rw (datagram_loop_err end _ [] end (read_capsule-nil end), download_loop, append-nil) refl
download_loop-written end [] (suc fuel) (suc room) sent h k =
    rw (datagram_loop_err end _ [] end (read_capsule-nil end), download_loop, append-nil) refl
download_loop-written end (p ∷ ps) (suc fuel) zero sent (hp, hps) k =
    rw
      (
        datagram_loop_ok end _ _ p (written ps) (datagram_round end p (written ps) hp),
        download_loop,
        append-nil,
      )
      refl
download_loop-written end (p ∷ ps) (suc fuel) (suc room) sent (hp, hps) k =
    let round = datagram_round end p (written ps) hp in
    let short = read_capsule-length end _ (some p) (written ps) round in
    rw (datagram_loop_ok end _ _ p (written ps) round, download_loop)
      (download_loop-written end ps fuel room (sent ++ p ∷ []) hps (omega arith)
        ∙ rw append_assoc refl)

-- Datagrams cross the tunnel unchanged: what the guest sends reaches the upstream of the
-- boundary, and what upstream sends reaches the guest, each once and in order, cut off at 65535
-- bytes, as many as the writes that succeed on the way. The loop towards the upstream ends with
-- the end of the stream when all its writes succeed, and at the first write that fails otherwise.
pub relayed-carried :
    (end : ReadError) (room guest up : ℕ) (ps : List Bytes)
    → (pump_upstream end up (upload room ps)
        ≡ some (take up (take room (map cut_off ps)), ending end up (take room (map cut_off ps))))
      × (download end guest (pump_downstream room ps)
          ≡ some (take guest (take room (map cut_off ps))))
unfolding download
relayed-carried end room guest up ps = (
  rw (upload-written room ps) (pump_upstream-written end up _ (carried-Fits room ps)),
  rw (pump_downstream-upload room ps, upload-written room ps)
      (download_loop-written end (take room (map cut_off ps))
        (suc (length (written (take room (map cut_off ps))))) guest [] (carried-Fits room ps)
        (omega arith)),
)
