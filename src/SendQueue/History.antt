-- ===== src/SendQueue/History.antt =====
-- Any sequence of calls on the send queue.
use esp_now_midi.Base.{ℕ, ◌+◌, ◌^◌, ◌≤◌, ◌≡◌, refl, ap, Option, List, [], ◌∷◌, arith}
use esp_now_midi.SendQueue.{Packet, SendQueue, Result, push, pop, clear}
use esp_now_midi.SendQueue.Fifo.{push_list, pop_list}
use esp_now_midi.SendQueue.Refines.{Refines}
use esp_now_midi.SendQueue.Push.{push-push_list}
use esp_now_midi.SendQueue.Pop.{next_start, pop-pop_list}

pub data Call : Type 0 where
  pushes : Packet → Call
  pops : Call
  clears : Call

-- What a caller sees of a call.
pub data Reply : Type 0 where
  pushed : Result → Reply
  popped : Option Packet → Reply
  cleared : Reply

module _ (short_slots frame_slots frame_bytes : ℕ) where
  unfoldable pub run : SendQueue → List Call → List Reply
  run q [] = []
  run q (pushes p ∷ calls) =
      let (q', r) = push short_slots frame_slots frame_bytes q p in pushed r ∷ run q' calls
  run q (pops ∷ calls) =
      let (q', out) = pop short_slots frame_slots frame_bytes q in popped out ∷ run q' calls
  run q (clears ∷ calls) = cleared ∷ run (clear q) calls

  -- The same calls on one line of packets.
  unfoldable pub run_list : List Packet → List Call → List Reply
  run_list ps [] = []
  run_list ps (pushes p ∷ calls) =
      let (ps', r) = push_list short_slots frame_slots frame_bytes ps p in
      pushed r ∷ run_list ps' calls
  run_list ps (pops ∷ calls) = let (ps', out) = pop_list ps in popped out ∷ run_list ps' calls
  run_list ps (clears ∷ calls) = cleared ∷ run_list [] calls

  clear-Refines :
      (q : SendQueue) (ps : List Packet) (s : ℕ)
      → Refines short_slots frame_slots frame_bytes q ps s
      → Refines short_slots frame_slots frame_bytes (clear q) [] q.next_seq
  unfolding clear
  clear-Refines q ps s r = ground (arith, r)

  -- No sequence of pushes, pops and clears tells a queue that stands for a line of packets, in at
  -- most 2 ^ 15 slots, from that line: packets leave in the order in which they were queued, the
  -- short ones and the frames together.
  pub run-run_list :
      (calls : List Call) (q : SendQueue) (ps : List Packet) (s : ℕ)
      → short_slots + frame_slots ≤ 2 ^ 15
      → Refines short_slots frame_slots frame_bytes q ps s
      → run q calls ≡ run_list ps calls
  unfolding run run_list
  run-run_list [] q ps s small r = refl
  run-run_list (pushes p ∷ calls) q ps s small r =
      let done = push-push_list short_slots frame_slots frame_bytes q ps s p r in
      ground (
        arith,
        done,
        run-run_list calls (push short_slots frame_slots frame_bytes q p).0
            (push_list short_slots frame_slots frame_bytes ps p).0 s small done.1,
      )
  run-run_list (pops ∷ calls) q ps s small r =
      let done = pop-pop_list short_slots frame_slots frame_bytes small q ps s r in
      ground (
        arith,
        done,
        run-run_list calls (pop short_slots frame_slots frame_bytes q).0 (pop_list ps).0
            (next_start ps s) small done.1,
      )
  run-run_list (clears ∷ calls) q ps s small r =
      ap (◌∷◌ cleared) (run-run_list calls (clear q) [] q.next_seq small (clear-Refines q ps s r))
