-- ===== src/Inbox/Sysex.antt =====
-- include/UsbSysExQueue.h: SysEx messages on their way from the callback to USB.
use esp_now_midi.Base.{
  ℕ, ◌+◌, ◌%◌, Bool, true, false, ◌||◌, Option, none, some, List, ltb, ◌==◌, ◌!=◌, if◌then◌else◌,
  length, put,
}
use esp_now_midi.Sysex.{max_message}

-- `USB_SYSEX_QUEUE_SLOTS`
abbrev pub usb_sysex_queue_slots : ℕ
usb_sysex_queue_slots = 2

-- `Slot`: the bytes that were copied in, and the sender's address when `hasFrom` is set.
pub record Slot : Type 0 where
  pub bytes : List ℕ
  pub from : Option ℕ

pub record UsbSysExQueue : Type 0 where
  pub slots : ℕ → Slot
  pub head : ℕ
  pub tail : ℕ

-- `enqueue`; the message is never a null pointer here.
unfoldable pub enqueue : UsbSysExQueue → List ℕ → Option ℕ → UsbSysExQueue × Bool
enqueue q bytes from =
    let len = length bytes in
    let next = (q.head + 1) % usb_sysex_queue_slots in
    if len == 0 || ltb max_message len then (q, false) else if next == q.tail then (q, false) else (
      record q { slots = put q.slots q.head (record { bytes = bytes; from = from }); head = next },
      true,
    )

unfoldable pub has_pending : UsbSysExQueue → Bool
has_pending q = q.tail != q.head

-- `peek`, with the sender; `none` where it returns false.
unfoldable pub peek : UsbSysExQueue → Option Slot
peek q = if q.tail == q.head then none else some (q.slots q.tail)

unfoldable pub consume_head : UsbSysExQueue → UsbSysExQueue
consume_head q =
    if q.tail != q.head then record q { tail = (q.tail + 1) % usb_sysex_queue_slots } else q

unfoldable pub clear : UsbSysExQueue → UsbSysExQueue
clear q = record q { head = 0; tail = 0 }
