-- ===== src/Storage/Persist.antt =====
-- include/PeerStorage.h: what is stored is what the next start loads.
use esp_now_midi.Base.{
  ℕ, zero, suc, ◌-◌, ◌≤◌, ◌≡◌, refl, inl, inr, true, not, ◌||◌, Option, none, some, List, [], ◌∷◌,
  ◌++◌, arith, leb, Bool-cases, length, length-append, length-take,
}
use esp_now_midi.PeerMutes.{max_peers}
use esp_now_midi.Codec.Payload.{take-append}
use esp_now_midi.Storage.{
  StorageFormat, PeerStorage, zeros, save, load_found, load_from, load, begin_storage, new_storage,
  find_index, peer_exists, is_storage_full, store_peer, shift_down, remove_index, remove_by,
  forget_peer, clear_storage,
}

-- What an application does with the storage
pub data Change : Type 0 where
  adds forgets removes_at : ℕ → Change
  clears begins : Change

unfoldable pub change : Change → PeerStorage → PeerStorage
unfolding store_peer forget_peer remove_index clear_storage begin_storage
change (adds mac) s = (store_peer s mac).0
change (forgets mac) s = (forget_peer s mac).0
change (removes_at i) s = (remove_index s i).0
change clears s = clear_storage s
change begins s = begin_storage s

unfoldable pub change_all : List Change → PeerStorage → PeerStorage
unfolding change
change_all [] s = s
change_all (c ∷ cs) s = change_all cs (change c s)

-- What the next start reads is what the storage holds.
pub record IsKept (s : PeerStorage) : Type 0 where
  pub begun : s.initialized ≡ true
  pub small : length s.peers ≤ max_peers
  pub reloaded : (begin_storage (new_storage s.medium)).peers ≡ s.peers

save_reloaded :
    (s : PeerStorage)
    → length s.peers ≤ max_peers
    → (begin_storage (new_storage (save s).medium)).peers ≡ s.peers
unfolding begin_storage new_storage load load_from load_found save
save_reloaded s small = ground (arith, take-append s.peers (zeros (max_peers - length s.peers)))

IsKept-save :
    (s : PeerStorage) → s.initialized ≡ true → length s.peers ≤ max_peers → IsKept (save s)
unfolding save
IsKept-save s begun small = record {
  begun = begun;
  small = small;
  reloaded = save_reloaded s small;
}

IsKept-begin : (medium : Option StorageFormat) → IsKept (begin_storage (new_storage medium))
unfolding begin_storage new_storage load load_from load_found save
IsKept-begin none = record { begun = refl; small = omega arith; reloaded = refl }
IsKept-begin (some storage) = record {
  begun = ground arith;
  small = ground (arith, length-take storage.peer_count storage.peers);
  reloaded = ground arith;
}

IsKept-store_peer : (s : PeerStorage) (mac : ℕ) → IsKept s → IsKept (store_peer s mac).0
unfolding store_peer is_storage_full
IsKept-store_peer s mac v =
    elim (Bool-cases (not s.initialized || leb max_peers (length s.peers) || peer_exists s mac)) [
      | inl refused ↦ rw (refused, store_peer) v
      | inr added ↦
          rw (added, store_peer)
            (IsKept-save (record s { peers = s.peers ++ mac ∷ [] }) v.begun
              (ground (arith, length-append s.peers (mac ∷ []))))
    ]

length-shift_down : (i : ℕ) (peers : List ℕ) → length (shift_down i peers) ≤ length peers
unfolding shift_down
length-shift_down i [] = omega arith
length-shift_down zero (p ∷ peers) = omega arith
length-shift_down (suc i) (p ∷ peers) = omega (arith, length-shift_down i peers)

IsKept-remove_index : (s : PeerStorage) (i : ℕ) → IsKept s → IsKept (remove_index s i).0
unfolding remove_index
IsKept-remove_index s i v = elim (Bool-cases (leb (length s.peers) i)) [
  | inl outside ↦ rw (outside, remove_index) v
  | inr inside ↦
      rw (inside, remove_index)
        (IsKept-save (record s { peers = shift_down i s.peers }) v.begun
          (omega (arith, v.small, length-shift_down i s.peers)))
]

IsKept-remove_by : (found : Option ℕ) (s : PeerStorage) → IsKept s → IsKept (remove_by found s).0
unfolding remove_by
IsKept-remove_by none s v = v
IsKept-remove_by (some i) s v = IsKept-remove_index s i v

begin_again : (s : PeerStorage) → s.initialized ≡ true → begin_storage s ≡ s
unfolding begin_storage
begin_again s begun = ground arith

IsKept-change : (c : Change) (s : PeerStorage) → IsKept s → IsKept (change c s)
unfolding change forget_peer clear_storage
IsKept-change (adds mac) s v = IsKept-store_peer s mac v
IsKept-change (forgets mac) s v = IsKept-remove_by (find_index s.peers mac) s v
IsKept-change (removes_at i) s v = IsKept-remove_index s i v
IsKept-change clears s v = IsKept-save (record s { peers = [] }) v.begun (omega arith)
IsKept-change begins s v = rw (begin_again s v.begun) v

IsKept-change_all : (cs : List Change) (s : PeerStorage) → IsKept s → IsKept (change_all cs s)
unfolding change_all
IsKept-change_all [] s v = v
IsKept-change_all (c ∷ cs) s v = IsKept-change_all cs (change c s) (IsKept-change c s v)

-- Whatever the medium holds at the start, valid or not, and whatever is added, removed and cleared
-- from then on, the storage has at most 20 peers, and a restart over the same medium loads exactly
-- the peers that it has; for a medium that takes what is written.
pub change_all-IsKept :
    (medium : Option StorageFormat) (cs : List Change)
    → IsKept (change_all cs (begin_storage (new_storage medium)))
change_all-IsKept medium cs =
    IsKept-change_all cs (begin_storage (new_storage medium)) (IsKept-begin medium)
