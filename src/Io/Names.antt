-- ===== src/Io/Names.antt =====
-- include/enomik_io.h: the name of a client and how it is stored.
use esp_now_midi.Base.{
  ℕ, zero, suc, ◌+◌, ◌-◌, Bool, true, false, ◌&&◌, List, [], ◌∷◌, ◌++◌, ◌==◌, if◌then◌else◌, length,
}
use esp_now_midi.Codec.{max_name_length, is_name_char}
use esp_now_midi.Io.Preferences.{Nvs, enomik_space, name_key, firmware_key, put_bytes, get_bytes}

abbrev pub default_name_text : List ℕ
default_name_text = 101 ∷ 110 ∷ 111 ∷ 109 ∷ 105 ∷ 107 ∷ []

abbrev pub firmware_id_length : ℕ
firmware_id_length = 8

-- The loop of `copyName`, with the room that is left. A name is its characters up to the terminator,
-- and a null pointer is the empty name.
unfoldable pub copy_name_from : ℕ → List ℕ → List ℕ
copy_name_from zero name = []
copy_name_from (suc room) [] = []
copy_name_from (suc room) (c ∷ name) =
    let rest = copy_name_from room name in
    if c == 0 then [] else (if is_name_char c then c else 63) ∷ rest

-- `copyName`
unfoldable pub copy_name : List ℕ → List ℕ
unfolding copy_name_from
copy_name name = copy_name_from max_name_length name

abbrev pub zero_bytes : ℕ → List ℕ
zero_bytes zero = []
zero_bytes (suc n) = 0 ∷ zero_bytes n

-- The buffer of `MAX_NAME_LENGTH + 1` bytes that holds a name
unfoldable pub name_buffer : List ℕ → List ℕ
name_buffer name = name ++ zero_bytes (max_name_length + 1 - length name)

-- `memcmp` of two buffers of the same size
abbrev pub same_bytes : List ℕ → List ℕ → Bool
same_bytes [] [] = true
same_bytes [] (b ∷ bs) = false
same_bytes (a ∷ cs) [] = false
same_bytes (a ∷ cs) (b ∷ bs) = a == b && same_bytes cs bs

module _ {S : Type 0} (nvs : Nvs S) where
  -- `saveNameToPrefs`
  unfoldable pub save_name : List ℕ → S → S
  unfolding put_bytes copy_name name_buffer
  save_name name store = put_bytes nvs enomik_space name_key (name_buffer (copy_name name)) store

module _ {S : Type 0} (nvs : Nvs S) (firmware_id : List ℕ) where
  -- `saveFirmwareIdToPrefs`
  unfoldable pub save_firmware_id : S → S
  unfolding put_bytes
  save_firmware_id store = put_bytes nvs enomik_space firmware_key firmware_id store

  -- `sameFirmware`
  unfoldable pub same_firmware : S → Bool
  unfolding get_bytes
  same_firmware store =
      let stored = get_bytes nvs enomik_space firmware_key firmware_id_length store in
      length stored == firmware_id_length && same_bytes stored firmware_id

  -- `loadNameFromPrefs`: the name that overrides, and what is stored then
  unfoldable pub load_name : S → List ℕ × S
  unfolding same_firmware get_bytes put_bytes copy_name name_buffer
  load_name store =
      if same_firmware store
      then (copy_name (get_bytes nvs enomik_space name_key (max_name_length + 1) store), store)
      else (
        [],
        put_bytes nvs enomik_space firmware_key firmware_id
            (put_bytes nvs enomik_space name_key (name_buffer []) store),
      )
