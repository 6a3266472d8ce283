-- ===== src/UsbQueue/Promises.antt =====
-- What a sender may rely on: which messages the queue never loses.
use esp_now_midi.Base.{
  ℕ, zero, suc, ◌≤◌, ◌<◌, ◌≡◌, refl, ap, ◌∙◌, ◌≢◌, ◌⊎◌, inl, inr, false, not, none, List, [], ◌∷◌,
  ◌++◌, arith, keep_if, All, sub32,
}
use esp_now_midi.UsbQueue.{Entry, UsbMidiQueue, k_capacity, size_locked, enqueue, drop_stale}
use esp_now_midi.UsbQueue.Slots.{IsValid, contents, length-contents}
use esp_now_midi.UsbQueue.Policy.{
  releases, evict_oldest, releases-enqueue_list, is_stale, last_state, compact_list,
  releases-compact_list, fresh-compact_list, last_state-compact_list,
}
use esp_now_midi.UsbQueue.Enqueue.{contents-enqueue}
use esp_now_midi.UsbQueue.Stale.{drop_stale_list, contents-drop_stale}
use esp_now_midi.Midi.{MidiMessage}

abbrev pub fresh : ℕ → ℕ → List Entry → List Entry
fresh now max_age_ms = keep_if (λ e. not (is_stale now max_age_ms e))

drop_stale_off : (q : UsbMidiQueue) (now : ℕ) → drop_stale q now 0 ≡ (q, 0)
unfolding drop_stale
drop_stale_off q now = refl

drop_stale_cases :
    (q : UsbMidiQueue) (now max_age_ms : ℕ)
    → IsValid q
    → (contents (drop_stale q now max_age_ms).0 ≡ contents q)
      ⊎ (contents (drop_stale q now max_age_ms).0 ≡ compact_list now max_age_ms (contents q))
unfolding drop_stale_list
drop_stale_cases q now zero v =
    inl (ap (λ (r : UsbMidiQueue × ℕ). contents r.0) (drop_stale_off q now))
drop_stale_cases q now (suc age) v =
    ground (arith, contents-drop_stale q now (suc age) v (omega arith))

-- Dropping stale entries removes no release and no fresh entry, and keeps the newest value of
-- every state, whatever the age limit and the time.
pub drop_stale_keeps :
    (q : UsbMidiQueue) (now max_age_ms : ℕ)
    → IsValid q
    → let ys = contents (drop_stale q now max_age_ms).0 in
      (releases ys ≡ releases (contents q))
      × (fresh now max_age_ms ys ≡ fresh now max_age_ms (contents q))
      × ((m : MidiMessage) → last_state m ys ≡ last_state m (contents q))
drop_stale_keeps q now max_age_ms v = elim (drop_stale_cases q now max_age_ms v) [
  | inl same ↦ rw same (refl, refl, λ m. refl)
  | inr compacted ↦ rw compacted (
    releases-compact_list now max_age_ms (contents q),
    fresh-compact_list now max_age_ms (contents q),
    λ m. last_state-compact_list m now max_age_ms (contents q),
  )
]

-- Unless every queued message is a release and the queue is full, `enqueue` keeps every queued
-- release, in order, and adds the new message behind them if it is one.
pub releases-enqueue :
    (q : UsbMidiQueue) (msg : MidiMessage) (now : ℕ)
    → IsValid q
    → (size_locked q < k_capacity) ⊎ (evict_oldest (contents q) ≢ none)
    → releases (contents (enqueue q msg now))
      ≡ releases (contents q) ++ releases (record { msg = msg; time_ms = now } ∷ [])
releases-enqueue q msg now v h =
    ap releases (contents-enqueue q msg now v).0
    ∙ releases-enqueue_list (contents q) (record { msg = msg; time_ms = now })
        (rw (length-contents q) h)

-- The ages along the queue do not rise, oldest entry first.
abbrev pub AgesFall : ℕ → List Entry → Type 0
AgesFall now [] = Unit {0}
AgesFall now (e ∷ es) = All (λ x. sub32 now x.time_ms ≤ sub32 now e.time_ms) es

All-fresh-compact_list :
    (now max_age_ms : ℕ) (es : List Entry)
    → All (λ e. is_stale now max_age_ms e ≡ false) es
    → compact_list now max_age_ms es ≡ es
unfolding compact_list
All-fresh-compact_list now max_age_ms [] h = refl
All-fresh-compact_list now max_age_ms (e ∷ es) h =
    ground (arith, All-fresh-compact_list now max_age_ms es)

younger_fresh :
    (now max_age_ms : ℕ) (e : Entry) (es : List Entry)
    → is_stale now max_age_ms e ≡ false
    → All (λ x. sub32 now x.time_ms ≤ sub32 now e.time_ms) es
    → All (λ x. is_stale now max_age_ms x ≡ false) es
younger_fresh now max_age_ms e [] h a = tt
younger_fresh now max_age_ms e (x ∷ es) h a =
    (ground arith, younger_fresh now max_age_ms e es h a.1)

drop_stale_list-compact_list :
    (now max_age_ms : ℕ) (es : List Entry)
    → AgesFall now es
    → drop_stale_list now max_age_ms es ≡ compact_list now max_age_ms es
unfolding drop_stale_list compact_list
drop_stale_list-compact_list now max_age_ms [] a = refl
drop_stale_list-compact_list now max_age_ms (e ∷ es) a =
    ground (arith, younger_fresh now max_age_ms e es, All-fresh-compact_list now max_age_ms es)

-- Looking at the oldest entry alone is enough: where the oldest entry is at least as old as the
-- others, `drop_stale` leaves what a compaction of the whole queue would leave.
pub drop_stale_shortcut :
    (q : UsbMidiQueue) (now max_age_ms : ℕ)
    → IsValid q
    → 0 < max_age_ms
    → AgesFall now (contents q)
    → contents (drop_stale q now max_age_ms).0 ≡ compact_list now max_age_ms (contents q)
drop_stale_shortcut q now max_age_ms v h a =
    (contents-drop_stale q now max_age_ms v h).0
    ∙ drop_stale_list-compact_list now max_age_ms (contents q) a
