-- ===== src/UsbReceive/Tests.antt =====
-- Runs of the USB receiver at concrete inputs.
use esp_now_midi.Base.{ℕ, ◌≡◌, refl, true, some, List, [], ◌∷◌, arith}
use esp_now_midi.UsbPacket.{UsbPacket, is_whole_sysex, write_usb_midi_sys_ex}
use esp_now_midi.UsbPacket.Packing.{keep_packet}
use esp_now_midi.Storage.{zeros}
use esp_now_midi.Transport.Dispatch.{sys_ex}
use esp_now_midi.UsbReceive.{
  HandlerTable, SysexAssembler, idle_assembler, append_bytes, finish_sysex, activate,
  begin_or_continue_sysex, end_sysex, dispatch_packet, dispatch_packets,
}
use esp_now_midi.UsbReceive.Assembly.{write_usb_midi_sys_ex-dispatched}

abbrev all_set : HandlerTable
all_set = record {
  note_on_set = true;
  note_off_set = true;
  control_change_set = true;
  program_change_set = true;
  pitch_bend_set = true;
  after_touch_channel_set = true;
  after_touch_poly_set = true;
  start_set = true;
  stop_set = true;
  continue_midi_set = true;
  clock_set = true;
  song_position_set = true;
  song_select_set = true;
  system_exclusive_set = true;
}

abbrev query : List ℕ
query = 0xf0 ∷ 0x7e ∷ 0x7f ∷ 6 ∷ 1 ∷ 0xf7 ∷ []

query_whole : is_whole_sysex query ≡ true
unfolding is_whole_sysex
query_whole = refl

write_usb_midi_sys_ex-dispatched_example :
    (ps : List UsbPacket) × (write_usb_midi_sys_ex keep_packet query [] ≡ some (ps, true))
    × (dispatch_packets all_set idle_assembler ps ≡ (idle_assembler, sys_ex query ∷ []))
write_usb_midi_sys_ex-dispatched_example =
    write_usb_midi_sys_ex-dispatched all_set query refl query_whole (omega arith)

-- When the buffer overflows in the middle of a message, the rest of it is a message of its own.
abbrev nearly_full : SysexAssembler
nearly_full = record { buf = 0xf0 ∷ zeros 254; active = true }

abbrev two_packets : List UsbPacket
two_packets =
    record { code = 4; byte1 = 1; byte2 = 2; byte3 = 3 }
    ∷ record { code = 7; byte1 = 4; byte2 = 5; byte3 = 0xf7 }
    ∷ []

overflow_rest :
    dispatch_packets all_set nearly_full two_packets
    ≡ (idle_assembler, sys_ex (4 ∷ 5 ∷ 0xf7 ∷ []) ∷ [])
unfolding dispatch_packets dispatch_packet begin_or_continue_sysex end_sysex finish_sysex activate
    append_bytes idle_assembler
overflow_rest = refl
