-- ===== src/Directory.antt =====
-- include/PeerDirectory.h: what peers told about themselves.
pub mod Lookup
pub mod Refines
mod Tests
use esp_now_midi.Base.{
  ℕ, zero, suc, is_some, ◌+◌, ◌-◌, ◌*◌, ◌/◌, ◌%◌, ◌^◌, ◌≤◌, ◌<◌, bit_or, bit_and, ◌≡◌, refl, sym,
  ap, ◌∙◌, ◌≢◌, ◌↔◌, ◌⊎◌, inl, inr, Bool, true, false, not, ◌&&◌, ◌||◌, Option, none, some, List,
  [], ◌∷◌, ◌++◌, map, arith, ltb, leb, ◌==◌, ◌!=◌, if◌then◌else◌, ==-eq, ==-ne, ==_iff, Bool-cases,
  Option-cases, length, get_or, take, drop, keep_if, All, length-append, length-map, length-take,
  length-drop, take_all, put, put_same, put_other, slot_injective, segment, length-segment,
  segment_congr, segment_shift, segment_snoc, segment_append, segment_extend, segment_remove,
  segment_list, get_or-take, get_or-drop, ring, ring-put, ring_list, ring_list-put, ring_list_step,
  ring_list_pop, ring_list-put_inside, ring_list-put_before, ring_next, u8, u16, u32, sub32, sub16,
  signed_ltb32, low_bits, shr,
}
use esp_now_midi.Base.Bits.{
  bit_and_high_bit, bit_and_low_bits, bit_and_high_nibble, bit_or-shift, shift-bit_or,
  nibbles-bit_or, bytes-bit_or,
}
use esp_now_midi.PeerMutes.{max_peers}
use esp_now_midi.Codec.{Announce, kind_byte}

-- `PeerDirectory::Entry`; an address is its packed number.
pub record DirectoryEntry : Type 0 where
  pub packed : ℕ
  pub info : Announce

-- The first `_count` of `_entries`
abbrev pub PeerDirectory : Type 0
PeerDirectory = List DirectoryEntry

-- `strcmp(a.name, b.name) == 0`, of names without their terminators
unfoldable pub same_name : List ℕ → List ℕ → Bool
same_name [] [] = true
same_name [] (b ∷ right) = false
same_name (a ∷ left) [] = false
same_name (a ∷ left) (b ∷ right) = a == b && same_name left right

-- `sameInfo`
unfoldable pub same_info : Announce → Announce → Bool
unfolding same_name
same_info a b =
    kind_byte a.kind == kind_byte b.kind
    && a.major == b.major
    && a.minor == b.minor
    && a.patch == b.patch
    && same_name a.name b.name

-- `find`, with the information of the entry: the index, or `none` for -1
unfoldable pub find_entry : PeerDirectory → ℕ → Option (ℕ × Announce)
find_entry [] packed = none
find_entry (entry ∷ entries) packed =
    let rest = find_entry entries packed in
    if entry.packed == packed
    then some (0, entry.info)
    else elim rest [ none ↦ none | some found ↦ some (suc found.0, found.1) ]

-- `_entries[index].info = info`
unfoldable pub store_info : ℕ → Announce → PeerDirectory → PeerDirectory
store_info i info [] = []
store_info zero info (entry ∷ entries) = record entry { info = info } ∷ entries
store_info (suc i) info (entry ∷ entries) = entry ∷ store_info i info entries

-- `set`, by what `find` returns
unfoldable pub set_found :
    Option (ℕ × Announce) → PeerDirectory → ℕ → Announce → PeerDirectory × Bool
unfolding same_info store_info
set_found none d packed info =
    if leb max_peers (length d)
    then (d, false)
    else (d ++ record { packed = packed; info = info } ∷ [], true)
set_found (some (index, known)) d packed info =
    if same_info known info then (d, false) else (store_info index info d, true)

unfoldable pub set_info : PeerDirectory → ℕ → Announce → PeerDirectory × Bool
unfolding find_entry set_found
set_info d packed info = set_found (find_entry d packed) d packed info

-- `get`
unfoldable pub get_info : PeerDirectory → ℕ → Option Announce
unfolding find_entry
get_info d packed = elim (find_entry d packed) [ none ↦ none | some found ↦ some found.1 ]

-- `_entries[index] = _entries[--_count]`: the last entry takes the place of the one at `index`.
unfoldable pub last_entry : DirectoryEntry → PeerDirectory → DirectoryEntry
last_entry entry [] = entry
last_entry entry (next ∷ entries) = last_entry next entries

unfoldable pub without_last : DirectoryEntry → PeerDirectory → PeerDirectory
without_last entry [] = []
without_last entry (next ∷ entries) = entry ∷ without_last next entries

unfoldable pub take_out : ℕ → PeerDirectory → PeerDirectory
unfolding last_entry without_last
take_out i [] = []
take_out zero (entry ∷ []) = []
take_out zero (entry ∷ next ∷ entries) = last_entry next entries ∷ without_last next entries
take_out (suc i) (entry ∷ entries) = entry ∷ take_out i entries

-- `remove`
unfoldable pub remove_info : PeerDirectory → ℕ → PeerDirectory
unfolding find_entry take_out
remove_info d packed = elim (find_entry d packed) [ none ↦ d | some found ↦ take_out found.0 d ]

-- `clear`
unfoldable pub clear_infos : PeerDirectory → PeerDirectory
clear_infos d = []
