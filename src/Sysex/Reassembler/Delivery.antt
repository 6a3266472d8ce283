-- ===== src/Sysex/Reassembler/Delivery.antt =====
-- A message that is sent in fragments arrives whole.
use esp_now_midi.Base.{
  ℕ, zero, suc, ◌+◌, ◌-◌, ◌*◌, ◌≤◌, ◌<◌, ◌≡◌, ap, ◌∙◌, Bool, true, false, Option, none, some, List,
  [], ◌∷◌, ◌++◌, arith, if◌then◌else◌, ==-ne, length, drop, length-drop, put, segment, sub32,
}
use native.Mathlib.Decide.{ℕ_discrete}
use mathlib.Core.List.{append_assoc, append-nil}
use esp_now_midi.Sysex.{
  max_message, max_frame, fragment_count, fragment_payload_offset, fragment_payload_length,
  send_frames, send_sysex,
}
use esp_now_midi.Sysex.Frames.{frame_bytes, encode_frame_ok, parse_frame-encode_frame}
use esp_now_midi.Sysex.Reassembler.{
  Slots, reassembly_timeout_ms, expire_stale, add_fragment, feed_frame, feed, feed_all,
}
use esp_now_midi.Sysex.Reassembler.Fragment.{
  Lies, fragment-Lies, Holds, Waits, fragment_view, written, add_fragment-written,
  put-written-Holds,
}
use esp_now_midi.Sysex.Reassembler.Steps.{
  slot_for, started, started-Holds, feed_frame-first, expire_stale-Waits, feed_frame-next,
}

-- A network that keeps every frame, in order.
abbrev pub keep_frame : List ℕ → List (List ℕ) → List (List ℕ) × Bool
keep_frame frame sent = (sent ++ frame ∷ [], true)

-- Frame `k` arrives at time `times k`.
abbrev pub stamp : (ℕ → ℕ) → ℕ → List (List ℕ) → List (ℕ × List ℕ)
stamp times k [] = []
stamp times k (frame ∷ frames) = (times k, frame) ∷ stamp times (suc k) frames

-- No gap between two frames is longer than the reassembly timeout.
abbrev pub IsPrompt : (ℕ → ℕ) → Type 0
IsPrompt times = (k : ℕ) → sub32 (times (suc k)) (times k) ≤ reassembly_timeout_ms

fragment_count_pos : (len : ℕ) → 1 ≤ len → len ≤ 1024 → 0 < fragment_count len
unfolding fragment_count
fragment_count_pos len lo hi = ground arith

module _ (message : List ℕ) where
  abbrev frame_of : ℕ → List ℕ
  frame_of seq =
      frame_bytes seq (fragment_count (length message)) (length message)
        (drop (fragment_payload_offset seq) message) (fragment_payload_length (length message) seq)

  send_frames-segment :
      (seq rounds : ℕ) (sent : List (List ℕ))
      → 1 ≤ length message
      → length message ≤ max_message
      → seq + rounds ≡ fragment_count (length message)
      → send_frames keep_frame message (fragment_count (length message)) seq rounds sent
        ≡ (sent ++ segment frame_of seq rounds, true)
  unfolding send_frames
  send_frames-segment seq zero sent lo hi e = ground (arith, append-nil sent)
  send_frames-segment seq (suc rounds) sent lo hi e = ground (
    arith,
    encode_frame_ok seq (fragment_count (length message)) (length message)
        (drop (fragment_payload_offset seq) message) (fragment_payload_length (length message) seq)
        (fragment-Lies (length message) seq lo hi (omega arith)).fragment,
    send_frames-segment (suc seq) rounds (sent ++ frame_of seq ∷ []) lo hi (omega arith),
    append_assoc sent (frame_of seq ∷ []) (segment frame_of (suc seq) rounds),
  )

  module _ (mac : ℕ) where
    feed-frame_of :
        (slots : Slots) (seq now_ms : ℕ)
        → Lies (length message) seq
        → feed slots mac (frame_of seq) now_ms
          ≡ feed_frame slots mac (fragment_view message mac seq) now_ms
    unfolding feed
    feed-frame_of slots seq now_ms l = ground (
      arith,
      parse_frame-encode_frame max_frame seq (fragment_count (length message)) (length message)
          (drop (fragment_payload_offset seq) message)
          (fragment_payload_length (length message) seq) {frame = frame_of seq}
          (omega (arith, l, length-drop (fragment_payload_offset seq) message))
          (encode_frame_ok seq (fragment_count (length message)) (length message)
            (drop (fragment_payload_offset seq) message)
            (fragment_payload_length (length message) seq) l.fragment),
    )

    -- What a fragment does: it completes the message, or leaves the slot waiting for the next one.
    data Fed (slots : Slots) (seq now_ms : ℕ) : Type 0 where
      completed :
          suc seq ≡ fragment_count (length message)
          → (feed slots mac (frame_of seq) now_ms).1 ≡ some message
          → Fed slots seq now_ms
      stored :
          (i : ℕ)
          → suc seq < fragment_count (length message)
          → (feed slots mac (frame_of seq) now_ms).1 ≡ none
          → Waits message mac (feed slots mac (frame_of seq) now_ms).0 i (suc seq) now_ms
          → Fed slots seq now_ms

    add_fragment-Fed :
        (slots slots1 : Slots) (i seq now_ms : ℕ)
        → Lies (length message) seq
        → Holds message mac slots1 i (seq * 240)
        → feed_frame slots mac (fragment_view message mac seq) now_ms
          ≡ add_fragment slots1 i (fragment_view message mac seq) now_ms
        → Fed slots seq now_ms
    add_fragment-Fed slots slots1 i seq now_ms l v e =
        let all =
          feed-frame_of slots seq now_ms l
          ∙ e
          ∙ add_fragment-written message mac slots1 i seq now_ms l v in
        elim (ℕ_discrete (suc seq) (fragment_count (length message))) [
          | yes end ↦ completed end (ground (arith, all))
          | no more ↦
              let out =
                all
                ∙ ap
                    (λ (b : Bool).
                      if b
                      then (
                        put slots1 i
                            (record (written message mac (slots1 i) seq now_ms) { active = false }),
                        some message,
                      )
                      else (put slots1 i (written message mac (slots1 i) seq now_ms), none))
                    (==-ne (suc seq) (fragment_count (length message)) more) in
              stored i (omega (arith, l.fragment.in_order))
                (ap (λ (r : Slots × Option (List ℕ)). r.1) out)
                (rw out (
                  put-written-Holds message mac slots1 i seq now_ms l v
                    (omega (arith, l.fragment.in_order))))
        ]

    module _ (times : ℕ → ℕ) (prompt : IsPrompt times) (lo : 1 ≤ length message)
        (hi : length message ≤ max_message) where
      -- The first fragment, whatever is in the slots.
      first-Fed : (slots : Slots) (now_ms : ℕ) → Fed slots 0 now_ms
      first-Fed slots now_ms =
          let slots1 = expire_stale slots now_ms in
          add_fragment-Fed slots (started message mac slots1 now_ms)
            (slot_for message mac slots1 now_ms) 0 now_ms
            (fragment-Lies (length message) 0 lo hi (fragment_count_pos (length message) lo hi))
            (started-Holds message mac slots1 now_ms) (feed_frame-first message mac slots now_ms)

      -- A later one, at a slot that waits for it.
      next-Fed :
          (slots : Slots) (i seq : ℕ)
          → Waits message mac slots i (suc seq) (times seq)
          → suc seq < fragment_count (length message)
          → Fed slots (suc seq) (times (suc seq))
      next-Fed slots i seq w more =
          add_fragment-Fed slots (expire_stale slots (times (suc seq))) i (suc seq)
            (times (suc seq)) (fragment-Lies (length message) (suc seq) lo hi more)
            (expire_stale-Waits message mac slots i (suc seq) (times seq) (times (suc seq)) w
              (prompt seq)).holds
            (feed_frame-next message mac slots i seq (times seq) (times (suc seq)) w (prompt seq))

      feed_all-Fed :
          (slots : Slots) (seq rounds : ℕ)
          → Fed slots seq (times seq)
          → seq + suc rounds ≡ fragment_count (length message)
          → (feed_all slots mac (stamp times seq (segment frame_of seq (suc rounds)))).1
            ≡ message ∷ []
      unfolding feed_all
      feed_all-Fed slots seq zero (completed end out) e = ground (arith, out)
      feed_all-Fed slots seq zero (stored i more out w) e = absurd (omega arith)
      feed_all-Fed slots seq (suc rounds) (completed end out) e = absurd (omega arith)
      feed_all-Fed slots seq (suc rounds) (stored i more out w) e = ground (
        arith,
        out,
        feed_all-Fed (feed slots mac (frame_of seq) (times seq)).0 (suc seq) rounds
            (next-Fed (feed slots mac (frame_of seq) (times seq)).0 i seq w more) (omega arith),
      )

-- Whatever the reassembler holds, a message of 1 to 1024 bytes that `send_sysex` hands over, and
-- whose frames arrive one after the other, all of them, in order, with gaps of at most 100 ms and no
-- frame of this or another sender in between, is given out once, whole, when its last frame arrives;
-- `send_sysex` reports success.
pub feed_all-send_sysex :
    (message : List ℕ) (mac : ℕ) (times : ℕ → ℕ) (slots : Slots)
    → 1 ≤ length message
    → length message ≤ max_message
    → IsPrompt times
    → let (frames, ok) = send_sysex keep_frame message [] in
      (ok ≡ true) × ((feed_all slots mac (stamp times 0 frames)).1 ≡ message ∷ [])
unfolding send_sysex
feed_all-send_sysex message mac times slots lo hi prompt =
    let total = fragment_count (length message) in
    let pos = fragment_count_pos (length message) lo hi in
    let sent = send_frames-segment message 0 total [] lo hi (omega arith) in
    let step : total ≡ suc (total - 1) = omega (arith, pos) in
    let arrives =
      feed_all-Fed message mac times prompt lo hi slots 0 (total - 1)
        (first-Fed message mac times prompt lo hi slots (times 0)) (omega (arith, pos)) in
    ground (
      arith,
      sent,
      arrives,
      ap (λ (n : ℕ). feed_all slots mac (stamp times 0 (segment (frame_of message) 0 n))) step,
    )
