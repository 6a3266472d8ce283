-- ===== src/UsbPacket/Packing.antt =====
-- include/UsbMidiPacket.h: a SysEx message in USB-MIDI packets.
use esp_now_midi.Base.{
  ℕ, zero, suc, ◌+◌, ◌*◌, ◌%◌, ◌^◌, ◌≤◌, ◌<◌, ◌≡◌, refl, sym, ap, ◌∙◌, inl, inr, Bool, true, some,
  List, [], ◌∷◌, ◌++◌, arith, leb, Bool-cases, length, get_or, drop, u16,
}
use mathlib.Core.List.{append_assoc, append-nil}
use esp_now_midi.UsbPacket.{UsbPacket, is_whole_sysex, packet_at, write_from, write_usb_midi_sys_ex}
use esp_now_midi.UsbPacket.Wire.{code_length, midi_bytes}

-- A buffer that has room for every packet
abbrev pub keep_packet : UsbPacket → List UsbPacket → List UsbPacket × Bool
keep_packet p sent = (sent ++ p ∷ [], true)

-- The MIDI bytes that a host reads from packets
unfoldable pub stream_bytes : List UsbPacket → List ℕ
stream_bytes [] = []
stream_bytes (p ∷ ps) = midi_bytes p ++ stream_bytes ps

stream_bytes-append :
    (xs ys : List UsbPacket) → stream_bytes (xs ++ ys) ≡ stream_bytes xs ++ stream_bytes ys
unfolding stream_bytes
stream_bytes-append [] ys = refl
stream_bytes-append (p ∷ xs) ys =
    ap (λ zs. midi_bytes p ++ zs) (stream_bytes-append xs ys)
    ∙ sym (append_assoc (midi_bytes p) (stream_bytes xs) (stream_bytes ys))

drop-suc : (xs : List ℕ) (i : ℕ) → i < length xs → drop i xs ≡ get_or xs i 0 ∷ drop (suc i) xs
drop-suc [] i h = absurd (omega arith)
drop-suc (x ∷ xs) zero h = refl
drop-suc (x ∷ xs) (suc i) h = drop-suc xs i (omega arith)

drop_cons : (xs : List ℕ) (i : ℕ) → i < length xs → drop i xs ≡ get_or xs i 0 ∷ drop (i + 1) xs
drop_cons xs i h =
    drop-suc xs i h
    ∙ ap (λ (n : ℕ). get_or xs i 0 ∷ drop n xs) {x = suc i} {y = i + 1} (omega arith)

drop_all : (xs : List ℕ) (i : ℕ) → length xs ≤ i → drop i xs ≡ []
drop_all [] zero h = refl
drop_all [] (suc i) h = refl
drop_all (x ∷ xs) zero h = absurd (omega arith)
drop_all (x ∷ xs) (suc i) h = drop_all xs i (omega arith)

midi_bytes-packet_at :
    (message : List ℕ) (i : ℕ)
    → i < length message
    → midi_bytes (packet_at message i) ++ drop (i + 3) message ≡ drop i message
unfolding midi_bytes packet_at code_length
midi_bytes-packet_at message i h = ground (
  arith,
  drop_cons message i,
  drop_cons message (i + 1),
  drop_cons message (i + 2),
  drop_all message (i + 1),
  drop_all message (i + 2),
  drop_all message (i + 3),
)

write_from_all :
    (message : List ℕ) (fuel i : ℕ) (sent : List UsbPacket)
    → length message < 2 ^ 16
    → i % 3 ≡ 0
    → i < length message + 3
    → length message + 3 ≤ i + 3 * fuel
    → (ps : List UsbPacket) × (write_from keep_packet message fuel i sent ≡ some (sent ++ ps, true))
      × (stream_bytes ps ≡ drop i message)
unfolding write_from stream_bytes
write_from_all message zero i sent small third near enough = absurd (omega arith)
write_from_all message (suc fuel) i sent small third near enough =
    elim (Bool-cases (leb (length message) i)) [
      | inl done ↦ ([], ground (arith, append-nil sent), ground (arith, drop_all message i))
      | inr more ↦
          (let lt : i < length message = ground arith in
            let e : u16 (i + 3) ≡ i + 3 = omega arith in
            let (ps, written, bytes) =
              write_from_all message fuel (u16 (i + 3)) (sent ++ packet_at message i ∷ []) small
                (omega arith) (omega arith) (omega arith) in
            (
              packet_at message i ∷ ps,
              ground (arith, written, append_assoc sent (packet_at message i ∷ []) ps),
              ground (arith, e, bytes, midi_bytes-packet_at message i lt),
            ))
    ]

-- A whole SysEx message of at most 65535 bytes is written when every packet fits, and a host that
-- reads the packets by their code index numbers has the bytes of the message.
pub write_usb_midi_sys_ex-read :
    (message : List ℕ)
    → is_whole_sysex message ≡ true
    → length message < 2 ^ 16
    → (ps : List UsbPacket) × (write_usb_midi_sys_ex keep_packet message [] ≡ some (ps, true))
      × (stream_bytes ps ≡ message)
unfolding write_usb_midi_sys_ex
write_usb_midi_sys_ex-read message whole small =
    let (ps, written, bytes) =
      write_from_all message (suc (length message)) 0 [] small refl (omega arith) (omega arith) in
    (ps, ground (arith, written), bytes)
