-- ===== src/Storage.antt =====
-- include/PeerStorage.h: the peers that survive a restart.
pub mod Persist
mod Tests
use esp_now_midi.Base.{
  ℕ, zero, suc, is_some, ◌+◌, ◌-◌, ◌*◌, ◌/◌, ◌%◌, ◌^◌, ◌≤◌, ◌<◌, bit_or, bit_and, ◌≡◌, refl, sym,
  ap, ◌∙◌, ◌≢◌, ◌↔◌, ◌⊎◌, inl, inr, Bool, true, false, not, ◌&&◌, ◌||◌, Option, none, some, List,
  [], ◌∷◌, ◌++◌, map, arith, ltb, leb, ◌==◌, ◌!=◌, if◌then◌else◌, ==-eq, ==-ne, ==_iff, Bool-cases,
  Option-cases, length, get_or, take, drop, keep_if, All, length-append, length-map, length-take,
  length-drop, take_all, put, put_same, put_other, slot_injective, segment, length-segment,
  segment_congr, segment_shift, segment_snoc, segment_append, segment_extend, segment_remove,
  segment_list, get_or-take, get_or-drop, ring, ring-put, ring_list, ring_list-put, ring_list_step,
  ring_list_pop, ring_list-put_inside, ring_list-put_before, ring_next, u8, u16, u32, sub32, sub16,
  signed_ltb32, low_bits, shr,
}
use esp_now_midi.Base.Bits.{
  bit_and_high_bit, bit_and_low_bits, bit_and_high_nibble, bit_or-shift, shift-bit_or,
  nibbles-bit_or, bytes-bit_or,
}
use esp_now_midi.PeerMutes.{max_peers}
use esp_now_midi.Transport.Peers.{holds}

-- `StorageFormat`; its array has `MAX_PEERS` entries, each an address as its packed number.
pub record StorageFormat : Type 0 where
  pub valid_flag : ℕ
  pub peer_count : ℕ
  pub peers : List ℕ

abbrev pub storage_flag : ℕ
storage_flag = 0xab

-- `PeerStorage`: the first `peerCount` entries of `peers`, behind which the array is zero, and what
-- the medium holds, with `none` for what cannot be read.
pub record PeerStorage : Type 0 where
  pub peers : List ℕ
  pub initialized : Bool
  pub medium : Option StorageFormat

abbrev pub zeros : ℕ → List ℕ
zeros zero = []
zeros (suc n) = 0 ∷ zeros n

-- `save`, on a medium that takes what is written
unfoldable pub save : PeerStorage → PeerStorage
save s = record s {
  medium = some (record {
    valid_flag = storage_flag;
    peer_count = length s.peers;
    peers = s.peers ++ zeros (max_peers - length s.peers);
  });
}

-- `load`
unfoldable pub load_found : StorageFormat → PeerStorage → PeerStorage
unfolding save
load_found storage s =
    if storage.valid_flag != storage_flag || ltb max_peers storage.peer_count
    then save (record s { peers = [] })
    else record s { peers = take storage.peer_count storage.peers }

unfoldable pub load_from : Option StorageFormat → PeerStorage → PeerStorage
unfolding save load_found
load_from none s = save (record s { peers = [] })
load_from (some storage) s = load_found storage s

unfoldable pub load : PeerStorage → PeerStorage
unfolding load_from
load s = load_from s.medium s

-- `begin`, where the medium could be opened
unfoldable pub begin_storage : PeerStorage → PeerStorage
unfolding load
begin_storage s = if s.initialized then s else record (load s) { initialized = true }

-- The constructor, over what the medium holds
unfoldable pub new_storage : Option StorageFormat → PeerStorage
new_storage medium = record { peers = []; initialized = false; medium = medium }

-- `findIndex`: the index, or `none` for -1
unfoldable pub find_index : List ℕ → ℕ → Option ℕ
find_index [] mac = none
find_index (peer ∷ peers) mac =
    let rest = find_index peers mac in
    if peer == mac then some 0 else elim rest [ none ↦ none | some i ↦ some (suc i) ]

unfoldable pub peer_exists : PeerStorage → ℕ → Bool
unfolding find_index
peer_exists s mac = is_some (find_index s.peers mac)

unfoldable pub is_storage_full : PeerStorage → Bool
is_storage_full s = leb max_peers (length s.peers)

-- `add`
unfoldable pub store_peer : PeerStorage → ℕ → PeerStorage × Bool
unfolding peer_exists is_storage_full save
store_peer s mac =
    if not s.initialized || is_storage_full s || peer_exists s mac
    then (s, false)
    else (save (record s { peers = s.peers ++ mac ∷ [] }), true)

-- The loop of `remove`, and the entry that is cleared
unfoldable pub shift_down : ℕ → List ℕ → List ℕ
shift_down i [] = []
shift_down zero (peer ∷ peers) = peers
shift_down (suc i) (peer ∷ peers) = peer ∷ shift_down i peers

-- `remove` by index
unfoldable pub remove_index : PeerStorage → ℕ → PeerStorage × Bool
unfolding shift_down save
remove_index s index =
    if leb (length s.peers) index
    then (s, false)
    else (save (record s { peers = shift_down index s.peers }), true)

-- `remove` by address
unfoldable pub remove_by : Option ℕ → PeerStorage → PeerStorage × Bool
unfolding remove_index
remove_by none s = (s, false)
remove_by (some index) s = remove_index s index

unfoldable pub forget_peer : PeerStorage → ℕ → PeerStorage × Bool
unfolding find_index remove_by
forget_peer s mac = remove_by (find_index s.peers mac) s

-- `clear`
unfoldable pub clear_storage : PeerStorage → PeerStorage
unfolding save
clear_storage s = save (record s { peers = [] })
