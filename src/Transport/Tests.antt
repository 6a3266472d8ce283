-- ===== src/Transport/Tests.antt =====
-- Runs of the transport at concrete inputs.
use esp_now_midi.Base.{
  ℕ, is_some, ◌<◌, ◌≡◌, refl, true, false, not, none, some, List, [], ◌∷◌, arith, ◌!=◌,
  if◌then◌else◌, keep_if,
}
use esp_now_midi.Midi.{to_message, from_message, get_data_size}
use esp_now_midi.Sysex.{max_frame}
use esp_now_midi.SendQueue.{Packet, pop, size}
use esp_now_midi.Transport.Send.{negsuc, send_note_on, packet_bytes, send_message}
use esp_now_midi.Transport.Dispatch.{Handlers, Event, pitch_bend, message_from, read_packet}
use esp_now_midi.Transport.Wire.{send_event, heard}
use esp_now_midi.Transport.Peers.{
  PeerInfo, new_peer, copy_send_targets, probe_due, holds, index_of, entry_at, peer_of,
}
use esp_now_midi.Transport.Table.{
  EspNow, Table, add_peer, begin_add, finish_add, undo_add, offer_peer, end_add, forget_driver,
}
use esp_now_midi.Transport.Addresses.{macs, Distinct, holds-keep_if}
use esp_now_midi.Transport.TableSteps.{IsEspNow, IsTable}
use esp_now_midi.Transport.TableRuns.{
  Step, offers, stores, checks, drops_checked, takes, forgets, gives_back, empties, drops_cleared,
  run, run-IsTable,
}
use esp_now_midi.Transport.Reach.{Report, confirmed, heard_from, after, capped, after-misses}
use esp_now_midi.Transport.Flight.{
  esp_ok, no_mem, Attempt, Flight, no_flight, enter_send, check_stall, stall_restart, next,
}
use esp_now_midi.Transport.Stall
use esp_now_midi.Transport.Stall.{enters, answers, log, IsSpaced, log-IsSpaced}
use esp_now_midi.Transport.Recovery.{send_each, send_each-recovers}
use esp_now_midi.Transport.Device.{Device, queue_short, queue_frames, on_data_recv, note_sender}
use esp_now_midi.Transport.Outgoing.{send_queued, send_popped, send_while}
use esp_now_midi.Transport.Receiving.{on_data_recv-send_event}
use esp_now_midi.Transport.Sending.{MaySend, send_queued-MaySend, send_while_ends}

abbrev all_handlers : Handlers
all_handlers = record {
  on_note_on = true;
  on_note_off = true;
  on_control_change = true;
  on_program_change = true;
  on_pitch_bend = true;
  on_after_touch_channel = true;
  on_after_touch_poly = true;
  on_start = true;
  on_stop = true;
  on_continue = true;
  on_clock = true;
  on_song_position = true;
  on_song_select = true;
  on_time_code = true;
  on_active_sensing = true;
  on_system_reset = true;
  on_sys_ex = true;
  on_sys_ex_from = true;
  on_message = true;
}

abbrev peer_7 : PeerInfo
peer_7 = record {
  mac = 7;
  last_seen_ms = 0;
  seen = false;
  missed = 6;
  unreachable = true;
  next_probe_ms = 4294967290;
}

abbrev peer_8 : PeerInfo
peer_8 = record {
  mac = 8;
  last_seen_ms = 0;
  seen = true;
  missed = 0;
  unreachable = false;
  next_probe_ms = 0;
}

abbrev note : Packet
note = record { mac = 8; bytes = 0x90 ∷ 60 ∷ 100 ∷ []; flags = 0 }

-- One packet waits for a reachable peer.
abbrev device : Device
device = record {
  peers = peer_7 ∷ peer_8 ∷ [];
  discovered = [];
  auto_peer_discovery = true;
  last_sender = none;
  queue = record {
    shorts = λ _. record { packet = note; seq = 0 };
    frames = λ _. record { packet = note; seq = 0 };
    short_head = 3;
    short_count = 1;
    frame_head = 0;
    frame_count = 0;
    next_seq = 1;
  };
  flight = no_flight;
  reassembler = λ _. record {
    active = false;
    mac = 0;
    msg_len = 0;
    total = 0;
    expected_seq = 0;
    last_ms = 0;
    buffer = λ _. 0;
  };
}

-- The bytes of a note on channel 16
send_note_on_bytes : send_note_on 60 100 16 ≡ 0x9f ∷ 60 ∷ 100 ∷ []
unfolding send_note_on send_message packet_bytes from_message get_data_size
send_note_on_bytes = refl

abbrev low_bend : Event
low_bend = pitch_bend 3 (negsuc 8999)

on_data_recv-send_event_example : on_data_recv all_handlers device 9 (send_event low_bend) 5 ≡ (
  note_sender device 9 5,
  message_from 9 (to_message (read_packet (send_event low_bend))) ∷ heard low_bend ∷ [],
)
on_data_recv-send_event_example =
    on_data_recv-send_event all_handlers device 9 5 low_bend (omega arith, omega arith)

-- A driver that keeps the addresses in a list
abbrev list_driver : EspNow (List ℕ)
list_driver = record {
  add_driver_peer = λ known m. (if holds known m then known else m ∷ known, not (holds known m));
  del_driver_peer = λ known m. (keep_if (λ k. k != m) known, holds known m);
  init_again = λ known. [];
  knows = holds;
}

list_driver-IsEspNow : IsEspNow list_driver
unfolding holds
list_driver-IsEspNow = record {
  add_new = λ known m added. ground arith;
  add_known = λ known m k. ground arith;
  del_known = λ known m k. ground (arith, holds-keep_if known m k);
}

abbrev empty_table : Table (List ℕ)
empty_table = record {
  driver = [];
  peers = [];
  pending = [];
  checked = [];
  leaving = [];
  cleared = [];
  missing = [];
}

empty_table-IsTable : IsTable list_driver empty_table
unfolding holds
empty_table-IsTable = record {
  small = omega arith;
  distinct = tt;
  known = λ m held. absurd (ground arith);
  pending_distinct = tt;
  pending_apart = λ m held. absurd (ground arith);
  pending_known = λ m held. absurd (ground arith);
  checked_apart = λ m held. absurd (ground arith);
  cleared_apart = λ m held. absurd (ground arith);
}

-- Two tasks add peers at once, one is removed while ESP-NOW restarts, and the list is cleared.
abbrev steps : List Step
steps =
    offers 7
    ∷ offers 8
    ∷ stores 8
    ∷ checks 8
    ∷ stores 7
    ∷ drops_checked 8
    ∷ forgets
    ∷ takes 8
    ∷ gives_back 7
    ∷ offers 8
    ∷ empties
    ∷ drops_cleared 7
    ∷ []

run-IsTable_example : IsTable list_driver (run list_driver steps empty_table)
run-IsTable_example =
    run-IsTable list_driver list_driver-IsEspNow steps empty_table empty_table-IsTable

abbrev table_7 : Table (List ℕ)
table_7 = record empty_table { driver = 7 ∷ []; peers = new_peer 7 ∷ [] }

-- An addPeer of a listed address that comes while a restart has not given it back yet
add_peer-forget_driver :
    macs (add_peer list_driver (forget_driver list_driver table_7) 7).0.peers ≡ 7 ∷ 7 ∷ []
unfolding add_peer begin_add finish_add undo_add offer_peer end_add forget_driver holds new_peer
add_peer-forget_driver = refl

abbrev reports : List Report
reports =
    confirmed false 9
    ∷ confirmed false 8
    ∷ confirmed false 7
    ∷ confirmed false 6
    ∷ confirmed false 5
    ∷ heard_from 4
    ∷ []

after-misses_example :
    ((after reports (new_peer 7)).unreachable ≡ true)
    × ((after reports (new_peer 7)).missed ≡ capped 5)
after-misses_example = after-misses reports 7

different : Distinct (macs device.peers)
unfolding holds
different = (refl, (refl, tt))

due_now : holds (copy_send_targets 4294967295 device.peers).due 7 ≡ true
unfolding copy_send_targets probe_due holds
due_now = refl

-- A packet was sent at 500 ms, and no confirmation came.
abbrev stuck : Flight
stuck = record no_flight { in_flight = 1; last_confirm_ms = 500 }

abbrev attempts : List Attempt
attempts = record { mac = 7; answer = esp_ok; entered_ms = 900; answered_ms = 901 } ∷ []

send_each-recovers_example :
    (is_some (stall_restart (send_each attempts stuck) 1500) ≡ true)
    × ((check_stall (send_each attempts stuck) 1500 1502).stats.restarts ≡ next 0)
    × ((check_stall (send_each attempts stuck) 1500 1502).last_restart_ms ≡ 1502)
    × ((check_stall (send_each attempts stuck) 1500 1502).in_flight ≡ 0)
    × ((enter_send (check_stall (send_each attempts stuck) 1500 1502) 7 1503).1 ≡ true)
send_each-recovers_example =
    send_each-recovers attempts stuck 1500 1502 7 1503 refl (omega arith) (omega arith)

log-IsSpaced_example : IsSpaced none false (
    log
      (enters 7 0
        ∷ answers esp_ok 1
        ∷ Stall.checks 1001 1005
        ∷ enters 7 1006
        ∷ answers no_mem 1007
        ∷ Stall.checks 6005 6009
        ∷ [])
      no_flight)
log-IsSpaced_example =
    log-IsSpaced
      (enters 7 0
        ∷ answers esp_ok 1
        ∷ Stall.checks 1001 1005
        ∷ enters 7 1006
        ∷ answers no_mem 1007
        ∷ Stall.checks 6005 6009
        ∷ [])
      (omega arith)

handed_note : (send_queued esp_ok 10 11 device).handed ≡ some note
unfolding send_queued send_popped pop peer_of index_of entry_at
handed_note = refl

send_queued-MaySend_example :
    (device.flight.in_flight ≡ 0)
    × ((pop queue_short queue_frames max_frame device.queue).1 ≡ some note)
    × MaySend device note
send_queued-MaySend_example = send_queued-MaySend esp_ok 10 11 device note handed_note

one_waits : size device.queue < 2
unfolding size
one_waits = omega arith

send_while_ends_example : is_some (send_while 2 (λ n. (esp_ok, n, n)) device) ≡ true
send_while_ends_example = send_while_ends 2 (λ n. (esp_ok, n, n)) device one_waits
