-- ===== src/Codec/Names.antt =====
-- include/enomik_sysex_codec.h: names and announcements come back from their packets.
use esp_now_midi.Base.{
  ℕ, zero, suc, ◌^◌, ◌≤◌, ◌<◌, ◌≡◌, refl, ap, ◌∙◌, true, some, List, [], ◌∷◌, arith, length, take,
  keep_if, All, length-append,
}
use esp_now_midi.Codec.{
  DeviceKind, client, dongle, Announce, is_name_char, get_payload, version_major, version_minor,
  version_patch, kind_byte,
}
use esp_now_midi.Codec.Command
use esp_now_midi.Codec.Encode.{
  packet, name_bytes_from, encode_name, printable_from, encode_announce,
}
use esp_now_midi.Codec.Decode.{
  all_name_chars, decode_name, decode_announce, is_announce_message, decode_announce_message,
  is_announce,
}
use esp_now_midi.Codec.Payload.{packet_middle, get_payload-packet, get_or-append}

-- What an encoder writes of a name can be read as a name.
printable_from-read :
    (rounds : ℕ) (name : List ℕ)
    → (all_name_chars (printable_from rounds name) ≡ true)
      × (length (printable_from rounds name) ≤ rounds)
unfolding all_name_chars printable_from
printable_from-read zero name = (refl, omega arith)
printable_from-read (suc rounds) [] = (refl, omega arith)
printable_from-read (suc rounds) (c ∷ name) = ground (arith, printable_from-read rounds name)

name_bytes_from-same :
    (rounds : ℕ) (name : List ℕ)
    → all_name_chars name ≡ true
    → length name ≤ rounds
    → name_bytes_from rounds name ≡ name
unfolding all_name_chars name_bytes_from
name_bytes_from-same zero [] chars short = refl
name_bytes_from-same zero (c ∷ name) chars short = absurd (omega arith)
name_bytes_from-same (suc rounds) [] chars short = refl
name_bytes_from-same (suc rounds) (c ∷ name) chars short =
    ground (arith, name_bytes_from-same rounds name)

abbrev pub announced : DeviceKind → List ℕ → Announce
announced kind name = record {
  kind = kind;
  major = version_major;
  minor = version_minor;
  patch = version_patch;
  name = name;
}

abbrev announce_payload : DeviceKind → List ℕ → List ℕ
announce_payload kind text = kind_byte kind ∷ version_major ∷ version_minor ∷ version_patch ∷ text

decode_announce-payload :
    (kind : DeviceKind) (text : List ℕ)
    → all_name_chars text ≡ true
    → length text ≤ 16
    → decode_announce (announce_payload kind text) ≡ some (announced kind text)
unfolding decode_announce decode_name
decode_announce-payload client text chars short = ground arith
decode_announce-payload dongle text chars short = ground arith

is_announce-packet :
    (kind : DeviceKind) (text : List ℕ)
    → length text ≤ 16
    → (is_announce_message (packet Command.announce (announce_payload kind text)) ≡ true)
      × (is_announce (packet Command.announce (announce_payload kind text)) ≡ true)
unfolding is_announce_message is_announce packet
is_announce-packet kind text short =
    ground (arith, length-append text (0xf7 ∷ []), get_or-append text 0xf7 0)

encode_announce_read :
    (kind : DeviceKind) (name : List ℕ)
    → decode_announce_message (encode_announce kind name)
      ≡ some (announced kind (printable_from 16 name))
unfolding decode_announce_message encode_announce
encode_announce_read kind name =
    let text = printable_from 16 name in
    let readable = printable_from-read 16 name in
    let known = is_announce-packet kind text readable.1 in
    rw (known.0, packet_middle Command.announce (announce_payload kind text))
      (decode_announce-payload kind text readable.0 readable.1)

-- The characters of a text that ends before its terminator
abbrev pub IsText : List ℕ → Type 0
IsText name = All (λ c. (0 < c) × (c < 2 ^ 8)) name

printable_from-keep_if :
    (rounds : ℕ) (name : List ℕ)
    → IsText name
    → printable_from rounds name ≡ keep_if is_name_char (take rounds name)
unfolding printable_from
printable_from-keep_if zero name text = refl
printable_from-keep_if (suc rounds) [] text = refl
printable_from-keep_if (suc rounds) (c ∷ name) text =
    ground (arith, printable_from-keep_if rounds name text.1)

-- An announcement is read back with the sender's kind and version, and with the printable ones of
-- the first 16 characters of its name, for every kind and name.
pub decode-encode_announce :
    (kind : DeviceKind) (name : List ℕ)
    → IsText name
    → decode_announce_message (encode_announce kind name)
      ≡ some (announced kind (keep_if is_name_char (take 16 name)))
decode-encode_announce kind name text =
    encode_announce_read kind name
    ∙ ap (λ t. some (announced kind t)) (printable_from-keep_if 16 name text)

-- A printable name of at most 16 characters is read back from the payload that carries it.
pub decode-encode_name :
    (name : List ℕ) (command : ℕ)
    → all_name_chars name ≡ true
    → length name ≤ 16
    → decode_name (get_payload (encode_name name command)) ≡ some name
unfolding encode_name decode_name
decode-encode_name name command chars short =
    ground (arith, get_payload-packet command name, name_bytes_from-same 16 name chars short)
