-- ===== src/Transport/Outgoing.antt =====
-- include/esp_now_midi.h: what is queued and sent.
use esp_now_midi.Base.{
  ℕ, zero, suc, ◌+◌, ◌-◌, bit_and, Bool, true, false, not, ◌&&◌, Option, none, some, List, [], ◌∷◌,
  ltb, ◌==◌, if◌then◌else◌, length, u32,
}
use esp_now_midi.Sysex.{max_frame}
use esp_now_midi.SendQueue.{Packet, Result, queued, replaced, full, too_long, push, pop, size}
use esp_now_midi.Transport.Peers.{has_peer, peer_of, note_delivery, copy_send_targets}
use esp_now_midi.Transport.Flight.{
  EspErr, esp_ok, esp_fail, invalid_arg, no_mem, not_found, is_ok, Flight, next, count_send,
  in_flight_full, send_one, confirm_send,
}
use esp_now_midi.Transport.Device.{Device, queue_short, queue_frames, probe_flag}

-- What `deliver` counts when the queue has taken the packet, or refused it for good
unfoldable pub count_push : Result → ℕ → Flight → Flight
count_push too_long waiting f = record f {
  stats = record (f.stats) { failed = next f.stats.failed; last_error = invalid_arg };
}
count_push full waiting f = f
count_push queued waiting f = record f {
  stats = record (f.stats) {
    queue_peak = if ltb f.stats.queue_peak waiting then waiting else f.stats.queue_peak;
  };
}
count_push replaced waiting f = record f {
  stats = record (f.stats) {
    replaced = next f.stats.replaced;
    queue_peak = if ltb f.stats.queue_peak waiting then waiting else f.stats.queue_peak;
  };
}

unfoldable pub count_dropped : Flight → Flight
count_dropped f = record f {
  stats = record (f.stats) {
    dropped = next f.stats.dropped;
    failed = next f.stats.failed;
    last_error = no_mem;
  };
}

abbrev pub packet_for : ℕ → List ℕ → Bool → Packet
packet_for mac bytes probe = record {
  mac = mac;
  bytes = bytes;
  flags = if probe then probe_flag else 0;
}

-- One round of the loop of `deliver`
unfoldable pub try_push : ℕ → List ℕ → Bool → Device → Device × Result
unfolding count_push
try_push mac bytes probe d =
    let (q, result) =
      push queue_short queue_frames max_frame d.queue (packet_for mac bytes probe) in
    (record d { queue = q; flight = count_push result (size q) d.flight }, result)

-- The returns of `deliver`: the queue has answered, or is full and cannot be waited for.
unfoldable pub end_deliver : Device → Device × Result → Device × EspErr
unfolding count_dropped
end_deliver d (taken, queued) = (taken, esp_ok)
end_deliver d (taken, replaced) = (taken, esp_ok)
end_deliver d (taken, too_long) = (taken, invalid_arg)
end_deliver d (taken, full) = (record d { flight = count_dropped d.flight }, no_mem)

abbrev pub is_full : Result → Bool
is_full full = true
is_full result = false

-- `deliver`, with the send queue. Each time that the queue is full the next entry of the list says
-- whether it can wait, and what other tasks do to the device meanwhile; the list ends when the time
-- is over.
unfoldable pub deliver :
    List (Option (Device → Device)) → ℕ → List ℕ → Bool → Device → Device × EspErr
unfolding try_push end_deliver
deliver [] mac bytes probe d = end_deliver d (try_push mac bytes probe d)
deliver (none ∷ pauses) mac bytes probe d = end_deliver d (try_push mac bytes probe d)
deliver (some change ∷ pauses) mac bytes probe d =
    let round = try_push mac bytes probe d in
    let later = deliver pauses mac bytes probe (change d) in
    if is_full round.1 then later else end_deliver d round

-- `sendQueued` after the packet was taken out: what is done, and the packet that goes to the driver.
unfoldable pub send_popped : EspErr → ℕ → ℕ → Device → Packet → Device × Option Packet
unfolding in_flight_full
send_popped answer entered answered d packet = elim (peer_of d.peers packet.mac) [
  | none ↦ (d, none)
  | some peer ↦
      if peer.unreachable && bit_and packet.flags probe_flag == 0
      then (
        record d {
          flight = record (d.flight) {
            stats = record (d.flight.stats) { skipped = next d.flight.stats.skipped };
          };
        },
        none,
      )
      else (
        record d {
          flight =
              send_one
                (record {
                  mac = packet.mac;
                  answer = answer;
                  entered_ms = entered;
                  answered_ms = answered;
                })
                d.flight;
        },
        if in_flight_full d.flight then none else some packet,
      )
]

-- What `sendQueued` did: whether it took a packet, and the packet that it handed to the driver.
pub record Sent : Type 0 where
  pub device : Device
  pub taken : Bool
  pub handed : Option Packet

-- `sendQueued`, with the driver's answer to the packet
unfoldable pub send_queued : EspErr → ℕ → ℕ → Device → Sent
unfolding in_flight_full send_popped
send_queued answer entered answered d =
    let (q, out) = pop queue_short queue_frames max_frame d.queue in
    if in_flight_full d.flight
    then record { device = d; taken = false; handed = none }
    else elim out [
      | none ↦ record { device = d; taken = false; handed = none }
      | some packet ↦
          let (d', handed) = send_popped answer entered answered (record d { queue = q }) packet in
          record { device = d'; taken = true; handed = handed }
    ]

-- The loop of `service`, of at most so many rounds, each with the driver's answer and its times;
-- `none` if it has not ended by then.
unfoldable pub send_while : ℕ → (ℕ → EspErr × ℕ × ℕ) → Device → Option Device
unfolding send_queued
send_while zero answers d = none
send_while (suc rounds) answers d =
    let answer = answers rounds in
    let round = send_queued answer.0 answer.1 answer.2 d in
    let rest = send_while rounds answers round.device in
    if round.taken then rest else some round.device

-- The loop of `sendToPeersExcept`, over the peers that are sent to; the flag says whether they are
-- probes.
unfoldable pub deliver_each :
    (ℕ → Bool → Device → Device × EspErr)
    → (ℕ → Bool)
    → Bool
    → Bool
    → List ℕ
    → EspErr
    → Device
    → Device × EspErr
deliver_each deliver_to exclude probe counts [] result d = (d, result)
deliver_each deliver_to exclude probe counts (mac ∷ macs) result d =
    let (d', err) = deliver_to mac probe d in
    let skipped = deliver_each deliver_to exclude probe counts macs result d in
    let next_result = if not (is_ok err) && counts then err else result in
    let sent = deliver_each deliver_to exclude probe counts macs next_result d' in
    if exclude mac then skipped else sent

-- `sendToPeersExcept`, with the send queue. `deliver_to` is `deliver` of the bytes.
unfoldable pub send_to_peers_except :
    (ℕ → Bool → Device → Device × EspErr) → (ℕ → Bool) → ℕ → Device → Device × EspErr
unfolding deliver_each
send_to_peers_except deliver_to exclude now d =
    let targets = copy_send_targets now d.peers in
    let count = length d.peers in
    let reached = length targets.reachable in
    let probes = length targets.due in
    let start = record d { peers = targets.peers } in
    let (d1, result1) = deliver_each deliver_to exclude false true targets.reachable esp_ok start in
    let (d2, result2) =
      deliver_each deliver_to exclude true (reached == 0) targets.due result1 d1 in
    let d3 =
      if ltb (reached + probes) count
      then record d2 {
        flight = record (d2.flight) {
          stats = record (d2.flight.stats) {
            skipped = u32 (d2.flight.stats.skipped + (count - reached - probes));
          };
        };
      }
      else d2 in
    if count == 0
    then (record start { flight = count_send d.flight esp_fail now }, esp_fail)
    else if reached == 0 && probes == 0
    then (d3, esp_fail)
    else (d3, result2)

-- `send` to one peer, of bytes that are not null
unfoldable pub send_to_peer :
    (ℕ → Bool → Device → Device × EspErr) → ℕ → ℕ → Device → Device × EspErr
send_to_peer deliver_to mac now d =
    if not (has_peer d.peers mac)
    then (record d { flight = count_send d.flight not_found now }, not_found)
    else deliver_to mac false d

-- `SendCallbackAdapter`, of the address that the driver names or else of the last send
unfoldable pub send_callback : Option ℕ → Bool → ℕ → Device → Device
send_callback address success now d =
    let mac = elim address as (λ _. ℕ) [ some named ↦ named | none ↦ d.flight.last_sent_packed ] in
    record d {
      flight = confirm_send d.flight success now;
      peers = note_delivery d.peers mac success now;
    }

-- `flush`: nothing waits in the queue, and nothing for its confirmation.
unfoldable pub is_flushed : Device → Bool
is_flushed d = size d.queue == 0 && d.flight.in_flight == 0
