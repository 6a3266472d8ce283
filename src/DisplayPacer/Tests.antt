-- ===== src/DisplayPacer/Tests.antt =====
-- A display that is redrawn under traffic.
use esp_now_midi.Base.{◌≡◌, refl, true, false, [], ◌∷◌, arith}
use esp_now_midi.DisplayPacer.{initial, due, drawn, note_midi, bridged, due-bridged}

-- MIDI every 40 ms holds the redraw back at 900 ms, and not at 1000 ms.
held_back : due (bridged (drawn initial 0) (820 ∷ 860 ∷ 900 ∷ [])) 900 ≡ false
unfolding due drawn bridged note_midi
held_back = refl

due_at_1000 : due (bridged (drawn initial 0) (900 ∷ 940 ∷ 980 ∷ [])) 1000 ≡ true
unfolding due drawn bridged note_midi
due_at_1000 = refl

due-bridged_example : due (bridged (drawn initial 4294967000) (100 ∷ 700 ∷ [])) 800 ≡ true
due-bridged_example =
    due-bridged initial 4294967000 (100 ∷ 700 ∷ []) 800 (omega arith) (omega arith) (omega arith)
