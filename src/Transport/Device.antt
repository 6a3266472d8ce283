-- ===== src/Transport/Device.antt =====
-- include/esp_now_midi.h: the state of a device, and what arrives.
use esp_now_midi.Base.{ℕ, Bool, not, Option, none, some, List, [], ◌++◌, ltb, if◌then◌else◌, length}
use esp_now_midi.Midi.{to_message}
use esp_now_midi.Sysex.Reassembler.{Slots, feed}
use esp_now_midi.SendQueue.{SendQueue}
use esp_now_midi.Transport.Peers.{PeerInfo, mark_seen, queue_discovered}
use esp_now_midi.Transport.Flight.{Flight}
use esp_now_midi.Transport.Dispatch.{
  Handlers, Event, sys_ex, sys_ex_from, message_from, call_if, dispatch, read_packet,
  is_midi_packet,
}

-- The members of `esp_now_midi` that sends and receipts change
pub record Device : Type 0 where
  pub peers : List PeerInfo
  pub discovered : List ℕ
  pub auto_peer_discovery : Bool
  pub last_sender : Option ℕ
  pub queue : SendQueue
  pub flight : Flight
  pub reassembler : Slots

abbrev pub queue_short : ℕ
queue_short = 128

abbrev pub queue_frames : ℕ
queue_frames = 8

-- `kProbe`
abbrev pub probe_flag : ℕ
probe_flag = 1

-- `OnDataRecv`, up to the tests of the message itself
unfoldable pub note_sender : Device → ℕ → ℕ → Device
note_sender d mac now =
    let (waiting, added) = queue_discovered d.peers d.discovered mac in
    record d {
      last_sender = some mac;
      discovered = if d.auto_peer_discovery then waiting else d.discovered;
      peers = mark_seen d.peers mac now;
    }

-- The calls for a SysEx message that is complete
unfoldable pub sys_ex_calls : Handlers → ℕ → Option (List ℕ) → List Event
sys_ex_calls hs mac none = []
sys_ex_calls hs mac (some complete) =
    call_if hs.on_sys_ex (sys_ex complete) ++ call_if hs.on_sys_ex_from (sys_ex_from mac complete)

unfoldable pub short_calls : Handlers → ℕ → List ℕ → List Event
short_calls hs mac bytes =
    let message = to_message (read_packet bytes) in
    call_if hs.on_message (message_from mac message) ++ dispatch hs message

-- `OnDataRecv`: the device afterwards and the handlers that were called, in order. The driver
-- always passes an address and data.
unfoldable pub on_data_recv : Handlers → Device → ℕ → List ℕ → ℕ → Device × List Event
unfolding note_sender sys_ex_calls short_calls
on_data_recv hs d mac bytes now =
    let noted = note_sender d mac now in
    let (slots, complete) = feed d.reassembler mac bytes now in
    if not (is_midi_packet bytes)
    then (d, [])
    else if ltb 3 (length bytes)
    then (record noted { reassembler = slots }, sys_ex_calls hs mac complete)
    else (noted, short_calls hs mac bytes)
