-- ===== src/Storage/Tests.antt =====
-- Runs of the peer storage at concrete inputs.
use esp_now_midi.Base.{◌≡◌, refl, Option, some, List, [], ◌∷◌}
use esp_now_midi.Storage.{
  StorageFormat, begin_storage, new_storage, load, load_from, load_found, save, store_peer,
  is_storage_full, peer_exists, find_index, forget_peer, remove_by, remove_index, shift_down,
}
use esp_now_midi.Storage.Persist.{
  Change, adds, forgets, removes_at, IsKept, change, change_all, change_all-IsKept,
}

-- What is left of another program: the count is out of range.
abbrev junk : Option StorageFormat
junk = some (record { valid_flag = 0xab; peer_count = 200; peers = 1 ∷ 2 ∷ [] })

abbrev changes : List Change
changes = adds 7 ∷ adds 8 ∷ adds 7 ∷ forgets 7 ∷ removes_at 3 ∷ adds 9 ∷ []

change_all-IsKept_example : IsKept (change_all changes (begin_storage (new_storage junk)))
change_all-IsKept_example = change_all-IsKept junk changes

-- Two peers are left.
changes_left : (change_all changes (begin_storage (new_storage junk))).peers ≡ 8 ∷ 9 ∷ []
unfolding change_all change begin_storage new_storage load load_from load_found save store_peer
    is_storage_full peer_exists find_index forget_peer remove_by remove_index shift_down
changes_left = refl
