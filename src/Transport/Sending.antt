-- ===== src/Transport/Sending.antt =====
-- include/esp_now_midi.h: what the sender takes from the queue.
use esp_now_midi.Base.{
  ℕ, zero, suc, is_some, ◌+◌, ◌<◌, bit_and, ◌≡◌, refl, sym, ap, ◌∙◌, ◌≢◌, inl, inr, true, some,
  arith, leb, Bool-cases, Option-cases,
}
use esp_now_midi.Sysex.{max_frame}
use esp_now_midi.SendQueue.{SendQueue, Packet, pop, size}
use esp_now_midi.Transport.Peers.{PeerInfo, peer_of}
use esp_now_midi.Transport.Flight.{EspErr, in_flight_full}
use esp_now_midi.Transport.Device.{Device, queue_short, queue_frames, probe_flag}
use esp_now_midi.Transport.Outgoing.{send_popped, send_queued, send_while}

-- A packet that may be sent: its peer is known, and reachable unless the packet is a probe.
pub record MaySend (d : Device) (packet : Packet) : Type 0 where
  pub peer : PeerInfo
  pub is_peer : peer_of d.peers packet.mac ≡ some peer
  pub reachable_or_probe : peer.unreachable ≡ true → bit_and packet.flags probe_flag ≢ 0

send_popped-MaySend :
    (answer : EspErr) (entered answered : ℕ) (d : Device) (packet out : Packet)
    → (send_popped answer entered answered d packet).1 ≡ some out
    → (out ≡ packet) × MaySend d packet
unfolding send_popped
send_popped-MaySend answer entered answered d packet out h =
    elim (Option-cases (peer_of d.peers packet.mac)) [
      | inl unknown ↦ absurd (ground (arith, unknown))
      | inr (peer, known) ↦ (
        ground (arith, known),
        record {
          peer = peer;
          is_peer = known;
          reachable_or_probe = λ off zero_flag. absurd (ground (arith, known));
        },
      )
    ]

pop_size :
    (q : SendQueue) (packet : Packet)
    → (pop queue_short queue_frames max_frame q).1 ≡ some packet
    → size (pop queue_short queue_frames max_frame q).0 + 1 ≡ size q
unfolding pop size
pop_size q packet h = ground arith

send_popped_queue :
    (answer : EspErr) (entered answered : ℕ) (d : Device) (packet : Packet)
    → (send_popped answer entered answered d packet).0.queue ≡ d.queue
unfolding send_popped
send_popped_queue answer entered answered d packet =
    elim (Option-cases (peer_of d.peers packet.mac)) [
      | inl unknown ↦ ground (arith, unknown)
      | inr (peer, known) ↦ ground (arith, known)
    ]

-- What a round of `sendQueued` hands to the driver is the packet that was next in the queue, while
-- no other waited for its confirmation; its peer is still in the list, and it is reachable or the
-- packet is a probe.
pub send_queued-MaySend :
    (answer : EspErr) (entered answered : ℕ) (d : Device) (out : Packet)
    → (send_queued answer entered answered d).handed ≡ some out
    → (d.flight.in_flight ≡ 0)
      × ((pop queue_short queue_frames max_frame d.queue).1 ≡ some out)
      × MaySend d out
unfolding send_queued in_flight_full
send_queued-MaySend answer entered answered d out h = elim (Bool-cases (leb 1 d.flight.in_flight)) [
  | inl busy ↦ absurd (ground (arith, busy))
  | inr idle ↦ elim (Option-cases (pop queue_short queue_frames max_frame d.queue).1) [
    | inl empty ↦ absurd (ground (arith, idle, empty))
    | inr (packet, next) ↦
        let q = (pop queue_short queue_frames max_frame d.queue).0 in
        let may =
          send_popped-MaySend answer entered answered (record d { queue = q }) packet out
            (ground (arith, idle, next, h)) in
        (
          ground arith,
          next ∙ ap some (sym may.0),
          rw may.0 (record {
            peer = may.1.peer;
            is_peer = may.1.is_peer;
            reachable_or_probe = may.1.reachable_or_probe;
          }),
        )
  ]
]

send_queued_size :
    (answer : EspErr) (entered answered : ℕ) (d : Device)
    → (send_queued answer entered answered d).taken ≡ true
    → size (send_queued answer entered answered d).device.queue + 1 ≡ size d.queue
unfolding send_queued
send_queued_size answer entered answered d taken =
    elim (Option-cases (pop queue_short queue_frames max_frame d.queue).1) [
      | inl empty ↦ absurd (ground (arith, empty))
      | inr (packet, next) ↦
          let q = (pop queue_short queue_frames max_frame d.queue).0 in
          ground (
            arith,
            next,
            pop_size d.queue packet next,
            ap size (send_popped_queue answer entered answered (record d { queue = q }) packet),
          )
    ]

-- The loop of `service` ends, after at most one round more than packets wait in the queue, whatever
-- the driver answers.
pub send_while_ends :
    (rounds : ℕ) (answers : ℕ → EspErr × ℕ × ℕ) (d : Device)
    → size d.queue < rounds
    → is_some (send_while rounds answers d) ≡ true
unfolding send_while
send_while_ends zero answers d short = absurd (omega arith)
send_while_ends (suc rounds) answers d short =
    let answer = answers rounds in
    let round = send_queued answer.0 answer.1 answer.2 d in
    elim (Bool-cases round.taken) [
      | inl taken ↦ rw taken (
          send_while_ends rounds answers round.device
            (omega (arith, send_queued_size answer.0 answer.1 answer.2 d taken)))
      | inr done ↦ rw done refl
    ]
