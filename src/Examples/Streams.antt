-- ===== src/Examples/Streams.antt =====
-- Concrete runs of the stream codecs: capsules, the pump, frames.
use agents_net.Qemu.{read_frame, write_frame}
use agents_net.Base.{none, ◌≡◌, refl, some, [], ◌∷◌, ◌++◌, arith, false, take, drop}
use agents_net.Base.Bytes.{Bytes, bytes_eq}
use agents_net.Base.Result.{Result, ok, err}
use agents_net.Qemu.Run.{Ethernet, is_handled, is_for, accepts, inbound, outbound}
use agents_net.Qemu.Run.Filtered.{inbound-outbound}
use agents_net.Forwarder.Relay.{upload, download, pump_downstream}
use agents_net.Forwarder.Relay.Carried.{relayed-carried}
use agents_net.Capsule.{
  ReadError, eof, big_endian, append_varint, varint_bytes, read_varint, read_full, write_datagram,
  capsule_payload, read_capsule, datagram_loop, read_datagram, pump_loop, pump_upstream,
}
use agents_net.Capsule.Stream.{read_datagram_total, read_datagram-write_datagram}
use agents_net.Capsule.Pump.{write_datagrams}

capsules : Unit {0}
unfolding big_endian append_varint varint_bytes read_varint read_full write_datagram capsule_payload
    read_capsule datagram_loop read_datagram pump_loop pump_upstream write_datagrams
capsules = tt

-- The length 3, the context 0 and two bytes.
write_datagram_bytes : write_datagram (7 ∷ 8 ∷ []) ≡ some (0 ∷ 3 ∷ 0 ∷ 7 ∷ 8 ∷ [])
unfolding capsules
write_datagram_bytes = refl

-- A stream that ends inside a capsule.
read_datagram_cut : read_datagram eof (0 ∷ 3 ∷ 0 ∷ 7 ∷ []) ≡ some (err ReadError.unexpected_eof)
unfolding capsules
read_datagram_cut = refl

read_datagram_total_example :
    (r : Result ReadError (Bytes × Bytes)) × (read_datagram eof (1 ∷ 0 ∷ []) ≡ some r)
read_datagram_total_example = read_datagram_total eof (1 ∷ 0 ∷ [])

read_datagram-write_datagram_example :
    (enc : Bytes) × (write_datagram (7 ∷ []) ≡ some enc)
    × (read_datagram eof (enc ++ 1 ∷ []) ≡ some (ok (7 ∷ [], 1 ∷ [])))
read_datagram-write_datagram_example =
    read_datagram-write_datagram eof (7 ∷ []) (1 ∷ []) (omega arith)

frames : Unit {0}
unfolding big_endian read_full read_frame write_frame
frames = tt

-- With a smallest size of 2; the length stands in four bytes in front of the frame.
write_frame_bytes : write_frame 2 (7 ∷ 8 ∷ 9 ∷ []) ≡ ok (0 ∷ 0 ∷ 0 ∷ 3 ∷ 7 ∷ 8 ∷ 9 ∷ [])
unfolding frames
write_frame_bytes = refl

-- Three datagrams on a stream that takes two capsules, and a guest and an upstream that take one.
relayed-carried_example :
    (pump_upstream eof 1 (upload 2 ((1 ∷ []) ∷ [] ∷ (2 ∷ []) ∷ [])) ≡ some ((1 ∷ []) ∷ [], none))
    × (download eof 1 (pump_downstream 2 ((1 ∷ []) ∷ [] ∷ (2 ∷ []) ∷ [])) ≡ some ((1 ∷ []) ∷ []))
relayed-carried_example = relayed-carried eof 2 1 1 ((1 ∷ []) ∷ [] ∷ (2 ∷ []) ∷ [])

-- Frames of four bytes at least: a type, a destination, and two bytes more.
abbrev ethernet : Ethernet
ethernet = record {
  minimum = 4;
  frame_type = λ frame. elim frame [ [] ↦ 0 | t ∷ rest ↦ t ];
  destination = λ frame. take 1 (drop 1 frame);
  is_multicast = λ destination. false;
  broadcast = 255 ∷ [];
  arp = 1;
  ipv4 = 2;
  ipv6 = 3;
}

-- A frame for another host and one of another protocol are dropped.
inbound-outbound_example :
    inbound ethernet
      (7 ∷ [])
      eof
      (outbound 4 ((2 ∷ 7 ∷ 0 ∷ 0 ∷ []) ∷ (2 ∷ 8 ∷ 0 ∷ 0 ∷ []) ∷ (9 ∷ 7 ∷ 0 ∷ 0 ∷ []) ∷ []))
    ≡ some ((2 ∷ 7 ∷ 0 ∷ 0 ∷ []) ∷ [], eof)
unfolding bytes_eq is_handled is_for accepts
inbound-outbound_example =
    inbound-outbound ethernet (7 ∷ []) eof
      ((2 ∷ 7 ∷ 0 ∷ 0 ∷ []) ∷ (2 ∷ 8 ∷ 0 ∷ 0 ∷ []) ∷ (9 ∷ 7 ∷ 0 ∷ 0 ∷ []) ∷ []) (omega arith)
      (refl, (refl, (refl, tt)))
