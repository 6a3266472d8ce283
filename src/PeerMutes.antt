-- ===== src/PeerMutes.antt =====
-- include/PeerMuteList.h: the peers whose MIDI is held back, by their packed addresses.
pub mod Packing
mod Tests
use esp_now_midi.Base.{
  ℕ, zero, suc, ◌+◌, ◌-◌, ◌*◌, ◌/◌, ◌%◌, ◌^◌, ◌≤◌, ◌<◌, bit_or, bit_and, ◌≡◌, refl, sym, ap, ◌∙◌,
  ◌≢◌, ◌↔◌, ◌⊎◌, inl, inr, Bool, true, false, not, ◌&&◌, ◌||◌, Option, none, some, List, [], ◌∷◌,
  ◌++◌, map, arith, ltb, leb, ◌==◌, ◌!=◌, if◌then◌else◌, ==-eq, ==-ne, ==_iff, Bool-cases,
  Option-cases, length, get_or, take, drop, keep_if, All, length-append, length-map, length-take,
  length-drop, take_all, put, put_same, put_other, slot_injective, segment, length-segment,
  segment_congr, segment_shift, segment_snoc, segment_append, segment_extend, segment_remove,
  segment_list, get_or-take, get_or-drop, ring, ring-put, ring_list, ring_list-put, ring_list_step,
  ring_list_pop, ring_list-put_inside, ring_list-put_before, ring_next, u8, u16, u32, sub32, sub16,
  signed_ltb32, low_bits, shr,
}
use esp_now_midi.Base.Bits.{
  bit_and_high_bit, bit_and_low_bits, bit_and_high_nibble, bit_or-shift, shift-bit_or,
  nibbles-bit_or, bytes-bit_or,
}

-- `MAX_PEERS`
abbrev pub max_peers : ℕ
max_peers = 20

-- The loop of `packMac`
unfoldable pub pack_from : (ℕ → ℕ) → ℕ → ℕ → ℕ → ℕ
pack_from mac i packed zero = packed
pack_from mac i packed (suc rounds) =
    pack_from mac (suc i) (bit_or packed (mac i * 2 ^ (i * 8))) rounds

-- `packMac`
unfoldable pub pack_mac : (ℕ → ℕ) → ℕ
pack_mac mac = pack_from mac 0 0 6

pub record PeerMuteList : Type 0 where
  pub packed : ℕ → ℕ
  pub count : ℕ

-- The loop of `find`: the index, or `none` for -1.
unfoldable pub find_from : (ℕ → ℕ) → ℕ → ℕ → ℕ → Option ℕ
find_from packed key i zero = none
find_from packed key i (suc rounds) =
    let rest = find_from packed key (suc i) rounds in if packed i == key then some i else rest

unfoldable pub find : PeerMuteList → ℕ → Option ℕ
find q key = find_from q.packed key 0 q.count

-- `packed_[count_++] = packed`
unfoldable pub append_key : PeerMuteList → ℕ → PeerMuteList
append_key q key = record { packed = put q.packed q.count key; count = q.count + 1 }

-- `packed_[index] = packed_[count_ - 1]; count_--`
unfoldable pub remove_at : PeerMuteList → ℕ → PeerMuteList
remove_at q index = record {
  packed = put q.packed index (q.packed (q.count - 1));
  count = q.count - 1;
}

-- `set` after the address is packed
unfoldable pub set_key : PeerMuteList → ℕ → Bool → PeerMuteList × Bool
set_key q key true = elim (find q key) [
  | some index ↦ (q, true)
  | none ↦ if leb max_peers q.count then (q, false) else (append_key q key, true)
]
set_key q key false = elim (find q key) [
  | some index ↦ (remove_at q index, true)
  | none ↦ (q, true)
]

unfoldable pub set : PeerMuteList → (ℕ → ℕ) → Bool → PeerMuteList × Bool
set q mac muted = set_key q (pack_mac mac) muted

unfoldable pub contains : PeerMuteList → (ℕ → ℕ) → Bool
contains q mac = elim (find q (pack_mac mac)) [ some index ↦ true | none ↦ false ]

-- `clear` of one address
unfoldable pub clear_peer : PeerMuteList → (ℕ → ℕ) → PeerMuteList
clear_peer q mac = elim (find q (pack_mac mac)) [ some index ↦ remove_at q index | none ↦ q ]
