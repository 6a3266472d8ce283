-- ===== src/UsbReceive/Assembly.antt =====
-- include/esp_now_midi_usb.h: SysEx messages are assembled from their packets.
use esp_now_midi.Base.{
  ℕ, zero, suc, ◌+◌, ◌*◌, ◌%◌, ◌≤◌, ◌<◌, ◌≡◌, refl, ap, ◌∙◌, inl, inr, true, some, List, [], ◌∷◌,
  ◌++◌, arith, ltb, ◌==◌, Bool-cases, length, get_or, take, length-take, take_all, u16,
}
use esp_now_midi.UsbPacket.{UsbPacket, is_whole_sysex, packet_at, write_from, write_usb_midi_sys_ex}
use esp_now_midi.UsbPacket.Packing.{keep_packet}
use mathlib.Core.List.{append_assoc}
use esp_now_midi.Transport.Dispatch.{Event, sys_ex}
use esp_now_midi.UsbReceive.{
  HandlerTable, SysexAssembler, idle_assembler, append_bytes, finish_sysex, activate,
  begin_or_continue_sysex, end_sysex, dispatch_packet, dispatch_packets,
}

-- The assembler that holds the first bytes of a message
abbrev holding : List ℕ → SysexAssembler
holding bytes = record { buf = bytes; active = ltb 0 (length bytes) }

activate-holding :
    (bytes : List ℕ) → activate (holding bytes) ≡ record { buf = bytes; active = true }
unfolding activate
activate-holding [] = refl
activate-holding (b ∷ bytes) = ground arith

take_snoc :
    (xs : List ℕ) (i : ℕ) → i < length xs → take (i + 1) xs ≡ take i xs ++ get_or xs i 0 ∷ []
take_snoc [] i h = absurd (omega arith)
take_snoc (x ∷ xs) zero h = refl
take_snoc (x ∷ xs) (suc i) h =
    ap (λ (n : ℕ). take n (x ∷ xs)) {x = suc i + 1} {y = suc (i + 1)} (omega arith)
    ∙ ap (◌∷◌ x) (take_snoc xs i (omega arith))

append_one :
    (buf rest : List ℕ) (b : ℕ)
    → length buf < 256
    → append_bytes (record { buf = buf; active = true }) (b ∷ rest)
      ≡ append_bytes (record { buf = buf ++ b ∷ []; active = true }) rest
unfolding append_bytes
append_one buf rest b room = ground arith

append_next :
    (message rest : List ℕ) (i : ℕ)
    → i < length message
    → length message ≤ 256
    → append_bytes (record { buf = take i message; active = true }) (get_or message i 0 ∷ rest)
      ≡ append_bytes (record { buf = take (i + 1) message; active = true }) rest
append_next message rest i inside fits =
    rw (take_snoc message i inside)
      (append_one (take i message) rest (get_or message i 0) (omega (arith, length-take i message)))

append_none : (a : SysexAssembler) → append_bytes a [] ≡ (a, true)
unfolding append_bytes
append_none a = refl

module _ (hs : HandlerTable) (message : List ℕ) (fits : length message ≤ 256) where
  dispatch_middle :
      (i : ℕ)
      → i + 3 < length message
      → dispatch_packet hs (holding (take i message)) (packet_at message i)
        ≡ (holding (take (i + 3) message), [])
  unfolding dispatch_packet packet_at begin_or_continue_sysex
  dispatch_middle i more = ground (
    arith,
    activate-holding (take i message),
    append_next message (get_or message (i + 1) 0 ∷ get_or message (i + 2) 0 ∷ []) i,
    append_next message (get_or message (i + 2) 0 ∷ []) (i + 1),
    append_next message [] (i + 2),
    append_none (record { buf = take (i + 3) message; active = true }),
    length-take (i + 3) message,
  )

  -- The packet that ends the message
  dispatch_last :
      (i : ℕ)
      → hs.system_exclusive_set ≡ true
      → 2 ≤ length message
      → i % 3 ≡ 0
      → i < length message
      → length message ≤ i + 3
      → dispatch_packet hs (holding (take i message)) (packet_at message i)
        ≡ (idle_assembler, sys_ex message ∷ [])
  unfolding dispatch_packet packet_at end_sysex finish_sysex
  dispatch_last i is_set two third inside last = elim (Bool-cases (i + 1 == length message)) [
    | inl one ↦ ground (
      arith,
      is_set,
      one,
      activate-holding (take i message),
      append_next message [] i,
      append_none (record { buf = take (i + 1) message; active = true }),
      take_all (i + 1) message,
      length-take i message,
    )
    | inr more ↦ elim (Bool-cases (i + 2 == length message)) [
      | inl pair ↦ ground (
        arith,
        is_set,
        pair,
        activate-holding (take i message),
        append_next message (get_or message (i + 1) 0 ∷ []) i,
        append_next message [] (i + 1),
        append_none (record { buf = take (i + 2) message; active = true }),
        take_all (i + 2) message,
      )
      | inr three ↦ ground (
        arith,
        is_set,
        activate-holding (take i message),
        append_next message (get_or message (i + 1) 0 ∷ get_or message (i + 2) 0 ∷ []) i,
        append_next message (get_or message (i + 2) 0 ∷ []) (i + 1),
        append_next message [] (i + 2),
        append_none (record { buf = take (i + 3) message; active = true }),
        take_all (i + 3) message,
      )
    ]
  ]

  write_from_next :
      (fuel i : ℕ) (sent : List UsbPacket)
      → i < length message
      → write_from keep_packet message (suc fuel) i sent
        ≡ write_from keep_packet message fuel (i + 3) (sent ++ packet_at message i ∷ [])
  unfolding write_from
  write_from_next fuel i sent inside = let e : u16 (i + 3) ≡ i + 3 = omega arith in ground arith

  write_from_end :
      (fuel i : ℕ) (sent : List UsbPacket)
      → length message ≤ i
      → write_from keep_packet message (suc fuel) i sent ≡ some (sent, true)
  unfolding write_from
  write_from_end fuel i sent outside = ground arith

  dispatch_packets_next :
      (a b c : SysexAssembler) (p : UsbPacket) (ps : List UsbPacket) (more : List Event)
      → dispatch_packet hs a p ≡ (b, [])
      → dispatch_packets hs b ps ≡ (c, more)
      → dispatch_packets hs a (p ∷ ps) ≡ (c, more)
  unfolding dispatch_packets
  dispatch_packets_next a b c p ps more one rest = rw (one, rest) refl

  dispatch_packets_one :
      (a b : SysexAssembler) (p : UsbPacket) (e : Event)
      → dispatch_packet hs a p ≡ (b, e ∷ [])
      → dispatch_packets hs a (p ∷ []) ≡ (b, e ∷ [])
  unfolding dispatch_packets
  dispatch_packets_one a b p e one = rw one refl

  write_from_dispatched :
      (fuel i : ℕ) (sent : List UsbPacket)
      → hs.system_exclusive_set ≡ true
      → 2 ≤ length message
      → i % 3 ≡ 0
      → i < length message
      → length message + 6 ≤ i + 3 * fuel
      → (ps : List UsbPacket) × (write_from keep_packet message fuel i sent
          ≡ some (sent ++ ps, true))
        × (dispatch_packets hs (holding (take i message)) ps
            ≡ (idle_assembler, sys_ex message ∷ []))
  write_from_dispatched zero i sent is_set two third inside enough = absurd (omega arith)
  write_from_dispatched (suc zero) i sent is_set two third inside enough = absurd (omega arith)
  write_from_dispatched (suc (suc fuel)) i sent is_set two third inside enough =
      elim (Bool-cases (ltb (i + 3) (length message))) [
        | inl more ↦
            let (ps, written, called) =
              write_from_dispatched (suc fuel) (i + 3) (sent ++ packet_at message i ∷ []) is_set two
                (omega arith) (ground arith) (omega arith) in
            (
              packet_at message i ∷ ps,
              write_from_next (suc fuel) i sent inside
                  ∙ written
                  ∙ ap (λ l. some (l, true)) (append_assoc sent (packet_at message i ∷ []) ps),
              dispatch_packets_next (holding (take i message)) (holding (take (i + 3) message))
                  idle_assembler (packet_at message i) ps (sys_ex message ∷ [])
                  (dispatch_middle i (ground arith)) called,
            )
        | inr last ↦ (
          packet_at message i ∷ [],
          write_from_next (suc fuel) i sent inside
              ∙ write_from_end fuel (i + 3) (sent ++ packet_at message i ∷ []) (ground arith),
          dispatch_packets_one (holding (take i message)) idle_assembler (packet_at message i)
              (sys_ex message) (dispatch_last i is_set two third inside (ground arith)),
        )
      ]

-- A whole SysEx message of at most 256 bytes that one device writes as USB-MIDI packets calls the
-- SysEx handler of another once, with the message, when its last packet arrives; no other handler
-- is called, and the assembler is idle again.
pub write_usb_midi_sys_ex-dispatched :
    (hs : HandlerTable) (message : List ℕ)
    → hs.system_exclusive_set ≡ true
    → is_whole_sysex message ≡ true
    → length message ≤ 256
    → (ps : List UsbPacket) × (write_usb_midi_sys_ex keep_packet message [] ≡ some (ps, true))
      × (dispatch_packets hs idle_assembler ps ≡ (idle_assembler, sys_ex message ∷ []))
unfolding write_usb_midi_sys_ex is_whole_sysex idle_assembler
write_usb_midi_sys_ex-dispatched hs message is_set whole fits =
    let two : 2 ≤ length message = ground arith in
    let (ps, written, called) =
      write_from_dispatched hs message fits (suc (length message)) 0 [] is_set two refl
        (omega arith) (omega arith) in
    (ps, ground (arith, written), called)
