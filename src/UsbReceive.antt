-- ===== src/UsbReceive.antt =====
-- include/esp_now_midi_usb.h: what arrives from the computer.
pub mod Assembly
mod Tests
use esp_now_midi.Base.{
  ℕ, zero, suc, is_some, ◌+◌, ◌-◌, ◌*◌, ◌/◌, ◌%◌, ◌^◌, ◌≤◌, ◌<◌, bit_or, bit_and, ◌≡◌, refl, sym,
  ap, ◌∙◌, ◌≢◌, ◌↔◌, ◌⊎◌, inl, inr, Bool, true, false, not, ◌&&◌, ◌||◌, Option, none, some, List,
  [], ◌∷◌, ◌++◌, map, arith, ltb, leb, ◌==◌, ◌!=◌, if◌then◌else◌, ==-eq, ==-ne, ==_iff, Bool-cases,
  Option-cases, length, get_or, take, drop, keep_if, All, length-append, length-map, length-take,
  length-drop, take_all, put, put_same, put_other, slot_injective, segment, length-segment,
  segment_congr, segment_shift, segment_snoc, segment_append, segment_extend, segment_remove,
  segment_list, get_or-take, get_or-drop, ring, ring-put, ring_list, ring_list-put, ring_list_step,
  ring_list_pop, ring_list-put_inside, ring_list-put_before, ring_next, u8, u16, u32, sub32, sub16,
  signed_ltb32, low_bits, shr,
}
use esp_now_midi.Base.Bits.{
  bit_and_high_bit, bit_and_low_bits, bit_and_high_nibble, bit_or-shift, shift-bit_or,
  nibbles-bit_or, bytes-bit_or,
}
use esp_now_midi.UsbPacket.{UsbPacket}
use esp_now_midi.Transport.Dispatch.{
  Event, note_on, note_off, control_change, poly_aftertouch, program_change, channel_aftertouch,
  pitch_bend, started, stopped, continued, clocked, song_position, song_select, sys_ex, call_if,
  to_signed,
}

-- `HandlerTable`: which handlers are set
pub record HandlerTable : Type 0 where
  pub note_on_set : Bool
  pub note_off_set : Bool
  pub control_change_set : Bool
  pub program_change_set : Bool
  pub pitch_bend_set : Bool
  pub after_touch_channel_set : Bool
  pub after_touch_poly_set : Bool
  pub start_set : Bool
  pub stop_set : Bool
  pub continue_midi_set : Bool
  pub clock_set : Bool
  pub song_position_set : Bool
  pub song_select_set : Bool
  pub system_exclusive_set : Bool

-- `SysexAssembler`: the first `len` bytes of `buf`
pub record SysexAssembler : Type 0 where
  pub buf : List ℕ
  pub active : Bool

abbrev pub sysex_capacity : ℕ
sysex_capacity = 256

-- The initial state, and that after `reset`
unfoldable pub idle_assembler : SysexAssembler
idle_assembler = record { buf = []; active = false }

-- `append`
unfoldable pub append_bytes : SysexAssembler → List ℕ → SysexAssembler × Bool
unfolding idle_assembler
append_bytes a [] = (a, true)
append_bytes a (b ∷ bytes) =
    let rest = append_bytes (record a { buf = a.buf ++ b ∷ [] }) bytes in
    if leb sysex_capacity (length a.buf) then (idle_assembler, false) else rest

-- `finish`
unfoldable pub finish_sysex : HandlerTable → SysexAssembler → SysexAssembler × List Event
unfolding idle_assembler
finish_sysex hs a =
    (idle_assembler, call_if (hs.system_exclusive_set && ltb 0 (length a.buf)) (sys_ex a.buf))

-- The head of `beginOrContinueSysex` and of `endSysex`
unfoldable pub activate : SysexAssembler → SysexAssembler
activate a = if not a.active then record { buf = []; active = true } else a

unfoldable pub begin_or_continue_sysex : SysexAssembler → List ℕ → SysexAssembler
unfolding activate append_bytes
begin_or_continue_sysex a bytes = (append_bytes (activate a) bytes).0

unfoldable pub end_sysex : HandlerTable → SysexAssembler → List ℕ → SysexAssembler × List Event
unfolding activate append_bytes finish_sysex
end_sysex hs a bytes =
    let (a', fits) = append_bytes (activate a) bytes in
    if fits then finish_sysex hs a' else (a', [])

-- The cases of `dispatchPacket` for system messages
unfoldable pub dispatch_system : HandlerTable → UsbPacket → List Event
dispatch_system hs p =
    if p.byte1 == 0xf2
    then call_if hs.song_position_set (song_position (bit_or (p.byte3 * 2 ^ 7) p.byte2))
    else if p.byte1 == 0xf3
    then call_if hs.song_select_set (song_select p.byte2)
    else if p.byte1 == 0xf8
    then call_if hs.clock_set clocked
    else if p.byte1 == 0xfa
    then call_if hs.start_set started
    else if p.byte1 == 0xfb
    then call_if hs.continue_midi_set continued
    else if p.byte1 == 0xfc
    then call_if hs.stop_set stopped
    else []

-- The cases for messages that are not SysEx
unfoldable pub dispatch_short : HandlerTable → ℕ → UsbPacket → List Event
unfolding dispatch_system to_signed
dispatch_short hs cin p =
    let channel = u8 (low_bits p.byte1 4 + 1) in
    if cin == 0x8
    then call_if hs.note_off_set (note_off channel p.byte2 p.byte3)
    else if cin == 0x9
    then call_if hs.note_on_set (note_on channel p.byte2 p.byte3)
    else if cin == 0xa
    then call_if hs.after_touch_poly_set (poly_aftertouch channel p.byte2 p.byte3)
    else if cin == 0xb
    then call_if hs.control_change_set (control_change channel p.byte2 p.byte3)
    else if cin == 0xc
    then call_if hs.program_change_set (program_change channel p.byte2)
    else if cin == 0xd
    then call_if hs.after_touch_channel_set (channel_aftertouch channel p.byte2)
    else if cin == 0xe
    then call_if hs.pitch_bend_set
        (pitch_bend channel (to_signed (bit_or (p.byte3 * 2 ^ 7) p.byte2)))
    else if cin == 0x2 || cin == 0x3 || cin == 0xf
    then dispatch_system hs p
    else []

-- `dispatchPacket`: the assembler afterwards, and the handlers that were called.
unfoldable pub dispatch_packet :
    HandlerTable → SysexAssembler → UsbPacket → SysexAssembler × List Event
unfolding begin_or_continue_sysex end_sysex dispatch_short
dispatch_packet hs a p =
    let cin = low_bits p.code 4 in
    if cin == 0x4
    then (begin_or_continue_sysex a (p.byte1 ∷ p.byte2 ∷ p.byte3 ∷ []), [])
    else if cin == 0x5
    then (if a.active then end_sysex hs a (p.byte1 ∷ []) else (a, []))
    else if cin == 0x6
    then end_sysex hs a (p.byte1 ∷ p.byte2 ∷ [])
    else if cin == 0x7
    then end_sysex hs a (p.byte1 ∷ p.byte2 ∷ p.byte3 ∷ [])
    else (a, dispatch_short hs cin p)

-- Packets in turn
unfoldable pub dispatch_packets :
    HandlerTable → SysexAssembler → List UsbPacket → SysexAssembler × List Event
unfolding dispatch_packet
dispatch_packets hs a [] = (a, [])
dispatch_packets hs a (p ∷ ps) =
    let (a1, events) = dispatch_packet hs a p in
    let (a2, more) = dispatch_packets hs a1 ps in (a2, events ++ more)
