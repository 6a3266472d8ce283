-- ===== src/UsbQueue/Enqueue.antt =====
-- `enqueue` of the ring does what the policy says.
use esp_now_midi.Base.{
  ℕ, zero, suc, ◌+◌, ◌<◌, ◌≡◌, refl, inl, inr, Bool, true, false, none, some, List, [], ◌∷◌, ◌++◌,
  arith, Bool-cases, segment, segment_snoc,
}
use mathlib.Core.List.{append_assoc}
use Prim.Native.Nat.add
use esp_now_midi.UsbQueue.{
  Entry, UsbMidiQueue, k_capacity, is_release, size_locked, evict_from,
  evict_oldest_droppable_locked, store, count_overflow, drop_tail, enqueue,
}
use esp_now_midi.UsbQueue.Slots.{
  IsValid, view, contents, size_locked-lt, length-contents, store-IsValid, contents-store,
  drop_tail-IsValid, contents-drop_tail, size_locked-drop_tail, size_locked-remove_at,
  remove_at-IsValid, contents-remove_at,
}
use esp_now_midi.UsbQueue.Policy.{evict_oldest, enqueue_list}
use esp_now_midi.Midi.{MidiMessage}

-- What the eviction loop has done when it stops, started at offset `k` with `rounds` entries left.
data Evicted (q : UsbMidiQueue) (k rounds : ℕ) (out : UsbMidiQueue × Bool) : Type 0 where
  all_releases :
      out ≡ (q, false) → evict_oldest (segment (view q) k rounds) ≡ none → Evicted q k rounds out
  made_room :
      (ys : List Entry)
      → out.1 ≡ true
      → evict_oldest (segment (view q) k rounds) ≡ some ys
      → contents out.0 ≡ segment (view q) 0 k ++ ys
      → IsValid out.0
      → suc (size_locked out.0) ≡ size_locked q
      → Evicted q k rounds out

evict_from-Evicted :
    (q : UsbMidiQueue) (k rounds : ℕ)
    → IsValid q
    → k + rounds ≡ size_locked q
    → Evicted q k rounds (evict_from q k rounds)
unfolding evict_from evict_oldest
evict_from-Evicted q k zero v h = all_releases refl refl
evict_from-Evicted q k (suc rounds) v h = elim (Bool-cases (is_release (view q k).msg)) [
  | inl held ↦ elim (evict_from-Evicted q (suc k) rounds v (omega arith)) [
    | all_releases e n ↦ all_releases (ground arith) (ground arith)
    | made_room ys d n c w s ↦
        made_room (view q k ∷ ys) (ground arith) (ground arith)
          (ground (
            arith,
            segment_snoc (view q) 0 k,
            append_assoc (segment (view q) 0 k) (view q k ∷ []) ys,
            add.zero k,
          ))
          (ground arith) (ground arith)
  ]
  | inr free ↦
      made_room (segment (view q) (suc k) rounds) (ground arith) (ground arith)
        (ground (arith, contents-remove_at v k (omega arith)))
        (ground (arith, remove_at-IsValid v k (omega arith)))
        (ground (arith, size_locked-remove_at v k (omega arith)))
]

-- What is known of a queue that has a free slot: storing appends, whatever the drop counter says.
store_counted :
    (q : UsbMidiQueue) (msg : MidiMessage) (now : ℕ)
    → IsValid q
    → size_locked q < k_capacity
    → (contents (store (count_overflow q) msg now)
        ≡ contents q ++ record { msg = msg; time_ms = now } ∷ [])
      × IsValid (store (count_overflow q) msg now)
store_counted q msg now v h = (
  unfold size_locked in
      contents-store {q = count_overflow q} valid msg now (unfold size_locked in h),
  store-IsValid {q = count_overflow q} valid msg now,
)
  where
    valid : IsValid (count_overflow q)
    valid = ground arith

contents-count_overflow : (q : UsbMidiQueue) → contents (count_overflow q) ≡ contents q
unfolding size_locked
contents-count_overflow q = refl

-- `enqueue` keeps the indices in range, and changes the entries as `enqueue_list` says: a new
-- entry goes to the end, and a full queue first gives up its oldest entry that is no release; if
-- all are releases, a new release takes the place of the oldest and any other message is dropped.
pub contents-enqueue :
    (q : UsbMidiQueue) (msg : MidiMessage) (now : ℕ)
    → IsValid q
    → (contents (enqueue q msg now)
        ≡ enqueue_list (contents q) (record { msg = msg; time_ms = now }))
      × IsValid (enqueue q msg now)
unfolding enqueue enqueue_list evict_oldest_droppable_locked
contents-enqueue q msg now v = elim (evict_from-Evicted q 0 (size_locked q) v (omega arith)) [
  | all_releases e n ↦ ground (
    arith,
    length-contents q,
    size_locked-lt v,
    contents-store v msg now,
    store-IsValid v msg now,
    contents-drop_tail v,
    size_locked-drop_tail v,
    store_counted (drop_tail q) msg now,
    drop_tail-IsValid v,
    contents-count_overflow q,
  )
  | made_room ys d n c w s ↦ ground (
    arith,
    length-contents q,
    size_locked-lt v,
    contents-store v msg now,
    store-IsValid v msg now,
    store_counted (evict_from q 0 (size_locked q)).0 msg now,
  )
]
