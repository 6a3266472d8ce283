-- ===== src/Directory/Tests.antt =====
-- Runs of the peer directory at concrete inputs.
use esp_now_midi.Base.{
  is_some, ◌≤◌, ◌≡◌, refl, true, ◌&&◌, ◌||◌, none, some, List, [], ◌∷◌, ltb, if◌then◌else◌, length,
}
use esp_now_midi.Codec.{Announce, client, dongle}
use esp_now_midi.Codec.Names.{announced}
use esp_now_midi.Directory.{
  set_info, set_found, find_entry, get_info, remove_info, take_out, last_entry, without_last,
}
use esp_now_midi.Directory.Refines.{Operation, sets, removes, after_all, after_all-map}

abbrev pad : Announce
pad = announced client (80 ∷ 97 ∷ 100 ∷ [])

abbrev box : Announce
box = announced dongle (66 ∷ [])

abbrev operations : List Operation
operations = sets 7 pad ∷ sets 8 box ∷ sets 9 pad ∷ removes 7 ∷ []

-- The last entry takes the place of the first.
after_all_entries : get_info (after_all operations []) 9 ≡ some pad
unfolding after_all set_info set_found find_entry get_info remove_info take_out last_entry
    without_last
after_all_entries = refl

after_all-map_example :
    (get_info (set_info (after_all operations []) 9 box).0 9 ≡ (
      if true
        && (ltb (length (after_all operations [])) 20
            || is_some (get_info (after_all operations []) 9))
      then some box
      else get_info (after_all operations []) 9))
    × (get_info (remove_info (after_all operations []) 9) 9 ≡ none)
    × (length (after_all operations []) ≤ 20)
after_all-map_example = after_all-map operations 9 box 9
