-- ===== src/SendQueue/Tests.antt =====
-- A queue of eight short slots and one frame slot.
use esp_now_midi.Base.{ℕ, ◌≡◌, refl, none, some, List, [], ◌∷◌, arith, put}
use esp_now_midi.SendQueue.{
  Packet, SendQueue, replaced, push, pop, push_short, append_short, replace_from, classify, limit,
  takes_place, replaces, is_ordered_controller,
}
use esp_now_midi.SendQueue.Refines.{Refines}
use esp_now_midi.SendQueue.History.{pushes, pops, run, run_list, run-run_list, pushed, popped}

abbrev volume : ℕ → Packet
volume value = record { mac = 1; bytes = 0xb0 ∷ 7 ∷ value ∷ []; flags = 0 }

abbrev frame : Packet
frame = record { mac = 1; bytes = 0xf0 ∷ 0x13 ∷ 0 ∷ 1 ∷ []; flags = 0 }

-- A controller value, then a frame, queued just before the sequence numbers wrap.
abbrev waiting : SendQueue
waiting = record {
  shorts = λ _. record { packet = volume 10; seq = 65535 };
  frames = λ _. record { packet = frame; seq = 0 };
  short_head = 7;
  short_count = 1;
  frame_head = 0;
  frame_count = 1;
  next_seq = 1;
}

abbrev line : List Packet
line = volume 10 ∷ frame ∷ []

waiting-Refines : Refines 8 1 16 waiting line 65535
waiting-Refines = record {
  shorts = refl;
  frames = refl;
  next = refl;
  short_head_in = omega arith;
  frame_head_in = omega arith;
  short_fits = omega arith;
  frame_fits = omega arith;
}

-- The newer value takes the place of the older one, in front of the frame.
replaces_in_place :
    run 8 1 16 waiting (pushes (volume 20) ∷ pops ∷ pops ∷ pops ∷ [])
    ≡ pushed replaced ∷ popped (some (volume 20)) ∷ popped (some frame) ∷ popped none ∷ []
unfolding run push pop push_short append_short replace_from classify limit takes_place replaces
    is_ordered_controller put
replaces_in_place = refl

run-run_list_example :
    run 8 1 16 waiting (pushes (volume 20) ∷ pops ∷ pops ∷ [])
    ≡ run_list 8 1 16 line (pushes (volume 20) ∷ pops ∷ pops ∷ [])
run-run_list_example =
    run-run_list 8 1 16 (pushes (volume 20) ∷ pops ∷ pops ∷ []) waiting line 65535 (omega arith)
      waiting-Refines
