-- ===== src/Sysex/Tests.antt =====
-- A message of 300 bytes in two frames.
use esp_now_midi.Base.{
  ℕ, zero, suc, ◌+◌, ◌*◌, ◌%◌, ◌^◌, ◌≡◌, refl, true, false, some, List, [], ◌∷◌, ◌++◌, arith,
}
use esp_now_midi.Sysex.{
  encode_frame, send_sysex, fragment_count, fragment_payload_length, make_flags,
}
use esp_now_midi.Sysex.Reassembler.{Slots, feed_all}
use esp_now_midi.Sysex.Reassembler.Delivery.{keep_frame, stamp, feed_all-send_sysex}

abbrev replicate : ℕ → ℕ → List ℕ
replicate zero b = []
replicate (suc n) b = b ∷ replicate n b

abbrev long_message : List ℕ
long_message = 0xf0 ∷ replicate 298 7 ++ 0xf7 ∷ []

abbrev idle_slots : Slots
idle_slots _ = record {
  active = false;
  mac = 0;
  msg_len = 0;
  total = 0;
  expected_seq = 0;
  last_ms = 0;
  buffer = λ _. 0;
}

abbrev short_frame : List ℕ
short_frame = 0xf0 ∷ 0x13 ∷ 0 ∷ 1 ∷ 2 ∷ 0 ∷ 0xf0 ∷ 0xf7 ∷ []

encode_short : encode_frame 246 0 1 2 (0xf0 ∷ 0xf7 ∷ []) 2 ≡ some short_frame
unfolding encode_frame make_flags fragment_count fragment_payload_length
encode_short = refl

-- The frames arrive 90 ms apart, the first just before `millis()` wraps.
abbrev arrival : ℕ → ℕ
arrival k = (4294967290 + 90 * k) % 2 ^ 32

feed_all-send_sysex_example :
    let (frames, ok) = send_sysex keep_frame long_message [] in
    (ok ≡ true) × ((feed_all idle_slots 42 (stamp arrival 0 frames)).1 ≡ long_message ∷ [])
feed_all-send_sysex_example =
    feed_all-send_sysex long_message 42 arrival idle_slots (omega arith) (omega arith)
      (λ k. omega arith)
