-- ===== src/Io/Requests.antt =====
-- include/enomik_io.h: a restart comes back with the settings that SysEx made.
use esp_now_midi.Base.{ℕ, ◌+◌, ◌^◌, ◌<◌, ◌≡◌, List, [], ◌∷◌, length}
use esp_now_midi.Io.State.{Floats, Readings}
use esp_now_midi.Io.Preferences.{Nvs}
use esp_now_midi.Io.Names.{firmware_id_length}
use esp_now_midi.Io.Device.{Hooks, Io}
use esp_now_midi.Io.Commands.{on_sys_ex}
use esp_now_midi.Io.Laws.{IsNvs}
use esp_now_midi.Io.Keeps.{Keeps}
use esp_now_midi.Io.Restart.{Stored}

module _ {F S : Type 0} where
  -- The settings that a start gives a device, with the store that it leaves
  abbrev pub Restarted : Io F S → Io F S → Type 0
  Restarted new old =
      (new.pin_configs ≡ old.pin_configs)
      × (new.midi_loopback ≡ old.midi_loopback)
      × (new.power_save ≡ old.power_save)
      × (new.name_override ≡ old.name_override)

module _ {F S : Type 0} (floats : Floats F) (nvs : Nvs S) (firmware_id mac : List ℕ)
    (h : Hooks) where
  -- SysEx messages one after the other, each with what the pins read and the time
  unfoldable pub receive_all : List (Readings × ℕ × List ℕ) → Io F S → Io F S
  unfolding on_sys_ex
  receive_all [] io = io
  receive_all ((r, now, bytes) ∷ rest) io =
      receive_all rest (on_sys_ex floats nvs firmware_id mac h r now bytes io).0

module _ {F S : Type 0} (floats : Floats F) (nvs : Nvs S) (laws : IsNvs nvs)
    (firmware_id mac : List ℕ) (size : length firmware_id ≡ firmware_id_length) (h : Hooks) where
  -- Both at once, since the room is counted down on the way.
  abbrev Room : ℕ → Io F S → Type 0
  Room n io = Stored nvs firmware_id io × (length io.pin_configs + n < 2 ^ 32)
