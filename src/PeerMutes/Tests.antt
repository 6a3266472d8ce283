-- ===== src/PeerMutes/Tests.antt =====
-- Addresses of peers.
use esp_now_midi.Base.{ℕ, ◌+◌, ◌≡◌, refl, arith, ltb, if◌then◌else◌}
use esp_now_midi.PeerMutes.Packing.{IsMac, pack_mac-injective}

abbrev address : ℕ → ℕ
address j = if ltb j 6 then 0x24 + j else 0

address-IsMac : IsMac address
address-IsMac = λ i inside. ground arith

pack_mac-injective_example : address 5 ≡ address 5
pack_mac-injective_example =
    pack_mac-injective address address address-IsMac address-IsMac refl 5 (omega arith)
