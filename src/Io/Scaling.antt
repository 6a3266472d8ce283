-- ===== src/Io/Scaling.antt =====
-- include/enomik_io.h and include/esp_now_midi_compat.h: scaling between value ranges.
use esp_now_midi.Base.{ℕ, ◌+◌, ◌-◌, ◌*◌, ◌/◌, Bool, true, false, not, ltb, leb, ◌==◌, if◌then◌else◌}
use esp_now_midi.Transport.Send.{ℤ, pos, negsuc}

abbrev pub same_bool : Bool → Bool → Bool
same_bool true b = b
same_bool false b = not b

abbrev pub distance : ℕ → ℕ → ℕ
distance a b = a - b + (b - a)

abbrev pub minus : ℕ → ℕ → ℤ
minus a b = if leb b a then pos (a - b) else negsuc (b - a - 1)

-- `map` of include/esp_now_midi_compat.h, at arguments that are not negative. The division of C
-- truncates toward 0: it divides the magnitudes, and the sign is that of the three differences.
unfoldable pub map_range : ℕ → ℕ → ℕ → ℕ → ℕ → ℤ
map_range x in_min in_max out_min out_max =
    let step = distance x in_min * distance out_max out_min / distance in_max in_min in
    let same_sign = same_bool (ltb x in_min) (ltb out_max out_min) in
    if in_max == in_min
    then pos out_min
    else if (if same_sign then not (ltb in_max in_min) else ltb in_max in_min)
    then pos (out_min + step)
    else minus out_min step

-- `constrain`
unfoldable pub constrain : ℤ → ℕ → ℕ → ℕ
constrain (pos n) low high = if ltb n low then low else if ltb high n then high else n
constrain (negsuc n) low high = low

-- An `int` that is known not to be negative
abbrev pub magnitude : ℤ → ℕ
magnitude (pos n) = n
magnitude (negsuc n) = 0

-- `snapToEndpoints`
unfoldable pub snap_to_endpoints : ℕ → ℕ → ℕ → ℕ → ℕ
snap_to_endpoints value min_value max_value snap =
    if leb value (min_value + snap)
    then min_value
    else if leb max_value (value + snap)
    then max_value
    else value
