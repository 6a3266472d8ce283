-- ===== src/Sysex/Reassembler/Steps.antt =====
-- Which slot a fragment goes to: the first fragment, and a later one that comes in time.
use esp_now_midi.Base.{
  ℕ, suc, ◌*◌, ◌≤◌, ◌<◌, ◌≡◌, refl, ap, ◌∙◌, inl, inr, false, ◌&&◌, none, some, List, arith, ◌==◌,
  Option-cases, put, put_same, put_other, sub32,
}
use esp_now_midi.Sysex.Reassembler.{
  Slot, Slots, max_reassembly_slots, reassembly_timeout_ms, expire_stale, find_slot, alloc_slot,
  find_from, start_assembly, add_fragment, feed_frame,
}
use esp_now_midi.Sysex.Reassembler.Slots.{
  expired, find_from-lt, find_from-before, find_from-none, find_from-first, expire_stale_at,
  matches, alloc_slot-lt,
}
use esp_now_midi.Sysex.Reassembler.Fragment.{Holds, Waits, fragment_view}

module _ (message : List ℕ) (mac : ℕ) where
  -- The slot that the first fragment of a message goes to: the sender's, or a free one.
  abbrev pub slot_for : Slots → ℕ → ℕ
  slot_for slots now_ms =
      let first : ℕ = elim (find_slot slots mac) [ some i ↦ i | none ↦ alloc_slot slots now_ms ] in
      first

  slot_for-lt : (slots : Slots) (now_ms : ℕ) → slot_for slots now_ms < max_reassembly_slots
  unfolding find_slot
  slot_for-lt slots now_ms = elim (Option-cases (find_from slots mac 0 4)) [
    | inl e ↦ ground (arith, alloc_slot-lt slots now_ms)
    | inr (k, e) ↦ ground (arith, find_from-lt slots mac 0 4 k e)
  ]

  slot_for-first :
      (slots : Slots) (now_ms j : ℕ) → j < slot_for slots now_ms → matches slots mac j ≡ false
  unfolding find_slot
  slot_for-first slots now_ms j h = elim (Option-cases (find_from slots mac 0 4)) [
    | inl e ↦ ground (arith, alloc_slot-lt slots now_ms, find_from-none slots mac 0 4 j e)
    | inr (k, e) ↦ ground (arith, find_from-before slots mac 0 4 k j e)
  ]

  abbrev pub started : Slots → ℕ → Slots
  started slots now_ms =
      let i = slot_for slots now_ms in
      put slots i (start_assembly (slots i) mac (fragment_view message mac 0) now_ms)

  pub started-Holds :
      (slots : Slots) (now_ms : ℕ)
      → Holds message mac (started slots now_ms) (slot_for slots now_ms) (0 * 240)
  started-Holds slots now_ms =
      let i = slot_for slots now_ms in
      let s' = start_assembly (slots i) mac (fragment_view message mac 0) now_ms in
      let same = put_same slots i s' i refl in
      record {
        slot_in = slot_for-lt slots now_ms;
        is_active = ap (λ (s : Slot). s.active) same;
        of_sender = ap (λ (s : Slot). s.mac) same;
        same_len = ap (λ (s : Slot). s.msg_len) same;
        same_total = ap (λ (s : Slot). s.total) same;
        first_match = λ j lt.
            ap (λ (s : Slot). s.active && s.mac == mac) (put_other slots i s' j (omega arith))
            ∙ slot_for-first slots now_ms j lt;
        bytes = λ j lt inside. absurd (omega arith);
      }

  pub feed_frame-first :
      (slots : Slots) (now_ms : ℕ)
      → feed_frame slots mac (fragment_view message mac 0) now_ms
        ≡ add_fragment
            (started (expire_stale slots now_ms) now_ms)
            (slot_for (expire_stale slots now_ms) now_ms)
            (fragment_view message mac 0)
            now_ms
  unfolding feed_frame
  feed_frame-first slots now_ms = refl

  expired_no_match :
      (slot : Slot) (now_ms : ℕ)
      → (slot.active && slot.mac == mac) ≡ false
      → ((expired now_ms slot).active && (expired now_ms slot).mac == mac) ≡ false
  expired_no_match slot now_ms h = ground arith

  pub expire_stale-Waits :
      (slots : Slots) (i seq t now_ms : ℕ)
      → Waits message mac slots i seq t
      → sub32 now_ms t ≤ reassembly_timeout_ms
      → Waits message mac (expire_stale slots now_ms) i seq t
  expire_stale-Waits slots i seq t now_ms w soon =
      let v = w.holds in
      let same : expire_stale slots now_ms i ≡ slots i =
        expire_stale_at slots now_ms i v.slot_in ∙ ground (arith, w) in
      record {
        holds = record {
          slot_in = v.slot_in;
          is_active = ap (λ (s : Slot). s.active) same ∙ v.is_active;
          of_sender = ap (λ (s : Slot). s.mac) same ∙ v.of_sender;
          same_len = ap (λ (s : Slot). s.msg_len) same ∙ v.same_len;
          same_total = ap (λ (s : Slot). s.total) same ∙ v.same_total;
          first_match = λ j lt.
              ap (λ (s : Slot). s.active && s.mac == mac)
                (expire_stale_at slots now_ms j (omega (arith, v.slot_in)))
              ∙ expired_no_match (slots j) now_ms (v.first_match j lt);
          bytes = λ j lt inside. ap (λ (s : Slot). s.buffer j) same ∙ v.bytes j lt inside;
        };
        next = ap (λ (s : Slot). s.expected_seq) same ∙ w.next;
        since = ap (λ (s : Slot). s.last_ms) same ∙ w.since;
      }

  find_slot-Waits :
      (slots : Slots) (i seq t : ℕ) → Waits message mac slots i seq t → find_slot slots mac ≡ some i
  unfolding find_slot
  find_slot-Waits slots i seq t w =
      find_from-first slots mac 0 4 i (omega arith) (omega (arith, w.holds.slot_in))
        (ground (arith, w)) w.holds.first_match

  -- A later fragment that comes in time goes to the slot that waits for it.
  pub feed_frame-next :
      (slots : Slots) (i seq t now_ms : ℕ)
      → Waits message mac slots i (suc seq) t
      → sub32 now_ms t ≤ reassembly_timeout_ms
      → feed_frame slots mac (fragment_view message mac (suc seq)) now_ms
        ≡ add_fragment (expire_stale slots now_ms) i (fragment_view message mac (suc seq)) now_ms
  unfolding feed_frame
  feed_frame-next slots i seq t now_ms w soon =
      let w1 = expire_stale-Waits slots i (suc seq) t now_ms w soon in
      ground (arith, w1, find_slot-Waits (expire_stale slots now_ms) i (suc seq) t w1)
