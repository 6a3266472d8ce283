-- ===== src/Codec/Tests.antt =====
-- Runs of the codec at concrete inputs.
use esp_now_midi.Base.{ℕ, ◌≡◌, true, some, List, [], ◌∷◌, arith}
use esp_now_midi.Codec.{dongle, RawValue, get_payload}
use esp_now_midi.Codec.Encode.{encode_announce, encode_raw_value}
use esp_now_midi.Codec.Decode.{decode_announce_message, decode_raw_value}
use esp_now_midi.Codec.Numbers.{IsRawValue, decode-encode_raw_value}
use esp_now_midi.Codec.Names.{IsText, announced, decode-encode_announce}

abbrev reading : RawValue
reading = record {
  pin = 4;
  mode = 3;
  raw = 4294967295;
  baseline = 70000;
  peak = 123456789;
  percent = 50;
  norm = 64;
  threshold = 20;
  active = true;
}

reading-IsRawValue : IsRawValue reading
reading-IsRawValue = record {
  pin_small = omega arith;
  mode_small = omega arith;
  raw_word = omega arith;
  baseline_word = omega arith;
  peak_word = omega arith;
  percent_small = omega arith;
  norm_small = omega arith;
  threshold_small = omega arith;
}

decode-encode_raw_value_example :
    decode_raw_value (get_payload (encode_raw_value reading)) ≡ some reading
decode-encode_raw_value_example = decode-encode_raw_value reading reading-IsRawValue

-- A name with a character that is not printable
abbrev title : List ℕ
title = 80 ∷ 195 ∷ 100 ∷ []

title-IsText : IsText title
title-IsText =
    ((omega arith, omega arith), ((omega arith, omega arith), ((omega arith, omega arith), tt)))

decode-encode_announce_example :
    decode_announce_message (encode_announce dongle title) ≡ some (announced dongle (80 ∷ 100 ∷ []))
decode-encode_announce_example = decode-encode_announce dongle title title-IsText
