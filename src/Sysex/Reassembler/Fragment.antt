-- ===== src/Sysex/Reassembler/Fragment.antt =====
-- What one fragment does to the slot that it goes to.
use esp_now_midi.Base.{
  ℕ, suc, ◌+◌, ◌-◌, ◌*◌, ◌≤◌, ◌<◌, ◌≡◌, refl, ap, ◌∙◌, true, false, ◌&&◌, none, some, List, arith,
  ◌==◌, if◌then◌else◌, length, get_or, take, drop, length-take, length-drop, put, put_same,
  put_other, segment, segment_list, get_or-take, get_or-drop, u8,
}
use esp_now_midi.Sysex.{fragment_count, fragment_payload_offset, fragment_payload_length, FrameView}
use esp_now_midi.Sysex.Frames.{IsFragment, frame_view, last-make_flags}
use esp_now_midi.Sysex.Reassembler.{Slot, Slots, max_reassembly_slots, copy_into, add_fragment}
use esp_now_midi.Sysex.Reassembler.Slots.{copy_into_at}

-- Fragment `seq` of a message of `len` bytes: where it lies.
pub record Lies (len seq : ℕ) : Type 0 where
  pub offset : fragment_payload_offset seq ≡ seq * 240
  pub fragment : IsFragment seq (fragment_count len) len (fragment_payload_length len seq)
  pub inside : seq * 240 + fragment_payload_length len seq ≤ len
  pub not_last : suc seq < fragment_count len → fragment_payload_length len seq ≡ 240
  pub last : suc seq ≡ fragment_count len → seq * 240 + fragment_payload_length len seq ≡ len
  pub small : seq < 5

pub fragment-Lies : (len seq : ℕ) → 1 ≤ len → len ≤ 1024 → seq < fragment_count len → Lies len seq
unfolding fragment_payload_offset fragment_count fragment_payload_length
fragment-Lies len seq h k lt = ground arith

module _ (message : List ℕ) (mac : ℕ) where
  -- Slot `i` holds the first `have` bytes of the message, and is the one that `find_slot` gives.
  pub record Holds (slots : Slots) (i have : ℕ) : Type 0 where
    pub slot_in : i < max_reassembly_slots
    pub is_active : (slots i).active ≡ true
    pub of_sender : (slots i).mac ≡ mac
    pub same_len : (slots i).msg_len ≡ length message
    pub same_total : (slots i).total ≡ fragment_count (length message)
    pub first_match : (j : ℕ) → j < i → ((slots j).active && (slots j).mac == mac) ≡ false
    pub bytes : (j : ℕ) → j < have → j < length message → (slots i).buffer j ≡ get_or message j 0

  -- ... and waits for fragment `seq`, since time `t`.
  pub record Waits (slots : Slots) (i seq t : ℕ) : Type 0 where
    pub holds : Holds slots i (seq * 240)
    pub next : (slots i).expected_seq ≡ seq
    pub since : (slots i).last_ms ≡ t

  abbrev pub fragment_view : ℕ → FrameView
  fragment_view seq =
      frame_view seq (fragment_count (length message)) (length message)
        (drop (fragment_payload_offset seq) message) (fragment_payload_length (length message) seq)

  abbrev pub part : ℕ → List ℕ
  part seq =
      let len = fragment_payload_length (length message) seq in
      take len (take len (drop (fragment_payload_offset seq) message))

  -- What `add_fragment` makes of the slot.
  abbrev pub written : Slot → ℕ → ℕ → Slot
  written slot seq now_ms = record slot {
    buffer = copy_into slot.buffer (fragment_payload_offset seq) (part seq);
    expected_seq = u8 (seq + 1);
    last_ms = now_ms;
  }

  pub length-part :
      (seq : ℕ)
      → Lies (length message) seq
      → length (part seq) ≡ fragment_payload_length (length message) seq
  length-part seq l =
      let len = fragment_payload_length (length message) seq in
      omega (
        arith,
        l,
        length-take len (take len (drop (fragment_payload_offset seq) message)),
        length-take len (drop (fragment_payload_offset seq) message),
        length-drop (fragment_payload_offset seq) message,
      )

  pub get_or-part :
      (seq j : ℕ)
      → j < fragment_payload_length (length message) seq
      → get_or (part seq) j 0 ≡ get_or message (fragment_payload_offset seq + j) 0
  get_or-part seq j h =
      let len = fragment_payload_length (length message) seq in
      get_or-take len (take len (drop (fragment_payload_offset seq) message)) j 0 h
      ∙ get_or-take len (drop (fragment_payload_offset seq) message) j 0 h
      ∙ get_or-drop (fragment_payload_offset seq) message j 0

  pub written_bytes :
      (slots : Slots) (i seq now_ms j : ℕ)
      → Lies (length message) seq
      → Holds slots i (seq * 240)
      → j < seq * 240 + fragment_payload_length (length message) seq
      → j < length message
      → (written (slots i) seq now_ms).buffer j ≡ get_or message j 0
  written_bytes slots i seq now_ms j l v lt inside = ground (
    arith,
    l,
    copy_into_at (slots i).buffer (fragment_payload_offset seq) (part seq) j,
    length-part seq l,
    get_or-part seq (j - fragment_payload_offset seq),
    ap (λ (k : ℕ). get_or message k 0)
        {x = fragment_payload_offset seq + (j - fragment_payload_offset seq)} {y = j},
    v.bytes j,
  )

  pub written_whole :
      (slots : Slots) (i seq now_ms : ℕ)
      → Lies (length message) seq
      → Holds slots i (seq * 240)
      → suc seq ≡ fragment_count (length message)
      → segment (written (slots i) seq now_ms).buffer 0 (slots i).msg_len ≡ message
  written_whole slots i seq now_ms l v e =
      let buffer = (written (slots i) seq now_ms).buffer in
      ap (segment buffer 0) v.same_len
      ∙ segment_list buffer 0 message 0 (λ j lt.
        ap buffer {x = 0 + j} {y = j} (omega arith)
        ∙ written_bytes slots i seq now_ms j l v (omega (arith, l.last e)) lt)

  -- The fragment completes the message if it is the last, and is stored otherwise.
  pub add_fragment-written :
      (slots : Slots) (i seq now_ms : ℕ)
      → Lies (length message) seq
      → Holds slots i (seq * 240)
      → add_fragment slots i (fragment_view seq) now_ms ≡ (
          if suc seq == fragment_count (length message)
          then (
            put slots i (record (written (slots i) seq now_ms) { active = false }),
            some message,
          )
          else (put slots i (written (slots i) seq now_ms), none))
  unfolding add_fragment
  add_fragment-written slots i seq now_ms l v = ground (
    arith,
    l,
    v,
    last-make_flags (seq == 0) (seq == fragment_count (length message) - 1),
    written_whole slots i seq now_ms l v,
  )

  pub put-written-Holds :
      (slots : Slots) (i seq now_ms : ℕ)
      → Lies (length message) seq
      → Holds slots i (seq * 240)
      → suc seq < fragment_count (length message)
      → Waits (put slots i (written (slots i) seq now_ms)) i (suc seq) now_ms
  put-written-Holds slots i seq now_ms l v more =
      let w = written (slots i) seq now_ms in
      let same = put_same slots i w i refl in
      record {
        holds = record {
          slot_in = v.slot_in;
          is_active = ap (λ (s : Slot). s.active) same ∙ v.is_active;
          of_sender = ap (λ (s : Slot). s.mac) same ∙ v.of_sender;
          same_len = ap (λ (s : Slot). s.msg_len) same ∙ v.same_len;
          same_total = ap (λ (s : Slot). s.total) same ∙ v.same_total;
          first_match = λ j lt.
              ap (λ (s : Slot). s.active && s.mac == mac) (put_other slots i w j (omega arith))
              ∙ v.first_match j lt;
          bytes = λ j lt inside.
              ap (λ (s : Slot). s.buffer j) same
              ∙ written_bytes slots i seq now_ms j l v (omega (arith, l.not_last more)) inside;
        };
        next = ap (λ (s : Slot). s.expected_seq) same ∙ omega (arith, l.small);
        since = ap (λ (s : Slot). s.last_ms) same;
      }
