-- ===== src/UsbQueue/Policy.antt =====
-- What the queue promises, on plain lists of entries (oldest first): which entry makes room for a
-- new one, and which stale entries go. The comment above `class UsbMidiQueue` states these rules.
use esp_now_midi.Base.{
  ℕ, ◌<◌, ◌≡◌, refl, ◌≢◌, ◌⊎◌, inl, inr, Bool, true, false, not, ◌&&◌, ◌||◌, Option, none, some,
  List, [], ◌∷◌, ◌++◌, arith, ltb, if◌then◌else◌, Option-cases, length, drop, keep_if, All, sub32,
}
use esp_now_midi.UsbQueue.{Entry, k_capacity, is_release, is_state, same_state}
use esp_now_midi.Midi.{MidiMessage}

abbrev pub releases : List Entry → List Entry
releases = keep_if (λ e. is_release e.msg)

abbrev pub prepend : Entry → Option (List Entry) → Option (List Entry)
prepend e none = none
prepend e (some es) = some (e ∷ es)

-- The list without its oldest entry that is no release.
unfoldable pub evict_oldest : List Entry → Option (List Entry)
evict_oldest [] = none
evict_oldest (e ∷ es) = if is_release e.msg then prepend e (evict_oldest es) else some es

-- `enqueue` on lists.
unfoldable pub enqueue_list : List Entry → Entry → List Entry
enqueue_list xs e = if ltb (length xs) k_capacity then xs ++ e ∷ [] else elim (evict_oldest xs) [
  | some ys ↦ ys ++ e ∷ []
  | none ↦ if is_release e.msg then drop 1 xs ++ e ∷ [] else xs
]

abbrev pub is_stale : ℕ → ℕ → Entry → Bool
is_stale now max_age_ms e = ltb max_age_ms (sub32 now e.time_ms)

unfoldable pub superseded : MidiMessage → List Entry → Bool
superseded m [] = false
superseded m (e ∷ es) = same_state m e.msg || superseded m es

-- An entry stays if it is fresh, a release, or the latest value of its state.
abbrev pub stays : ℕ → ℕ → Entry → List Entry → Bool
stays now max_age_ms e newer =
    if is_stale now max_age_ms e && not (is_release e.msg)
    then is_state e.msg && not (superseded e.msg newer)
    else true

unfoldable pub compact_list : ℕ → ℕ → List Entry → List Entry
compact_list now max_age_ms [] = []
compact_list now max_age_ms (e ∷ es) =
    if stays now max_age_ms e es
    then e ∷ compact_list now max_age_ms es
    else compact_list now max_age_ms es

-- The newest entry that holds the same state as `m`.
unfoldable pub last_state : MidiMessage → List Entry → Option Entry
last_state m [] = none
last_state m (e ∷ es) = elim (last_state m es) [
  | some x ↦ some x
  | none ↦ if same_state m e.msg then some e else none
]

same_state-is_state : (a b : MidiMessage) → same_state a b ≡ true → is_state b ≡ true
unfolding same_state is_state
same_state-is_state a b h = ground arith

same_state_trans :
    (a b c : MidiMessage) → same_state a b ≡ true → same_state b c ≡ true → same_state a c ≡ true
unfolding same_state
same_state_trans a b c h k = ground arith

superseded-last_state :
    (m a : MidiMessage) (es : List Entry)
    → same_state m a ≡ true
    → superseded a es ≡ true
    → last_state m es ≢ none
unfolding superseded last_state
superseded-last_state m a [] h s = cc
superseded-last_state m a (e ∷ es) h s =
    ground (arith, superseded-last_state m a es h, same_state_trans m a e.msg h)

-- The newest value of every state survives.
pub last_state-compact_list :
    (m : MidiMessage) (now max_age_ms : ℕ) (es : List Entry)
    → last_state m (compact_list now max_age_ms es) ≡ last_state m es
unfolding last_state compact_list
last_state-compact_list m now max_age_ms [] = refl
last_state-compact_list m now max_age_ms (e ∷ es) = ground (
  arith,
  last_state-compact_list m now max_age_ms es,
  same_state-is_state m e.msg,
  superseded-last_state m e.msg es,
)

-- No release goes, and the releases keep their order.
pub releases-compact_list :
    (now max_age_ms : ℕ) (es : List Entry) → releases (compact_list now max_age_ms es) ≡ releases es
unfolding compact_list
releases-compact_list now max_age_ms [] = refl
releases-compact_list now max_age_ms (e ∷ es) =
    ground (arith, releases-compact_list now max_age_ms es)

-- No fresh entry goes.
pub fresh-compact_list :
    (now max_age_ms : ℕ) (es : List Entry)
    → keep_if (λ e. not (is_stale now max_age_ms e)) (compact_list now max_age_ms es)
      ≡ keep_if (λ e. not (is_stale now max_age_ms e)) es
unfolding compact_list
fresh-compact_list now max_age_ms [] = refl
fresh-compact_list now max_age_ms (e ∷ es) = ground (arith, fresh-compact_list now max_age_ms es)

keep_if-append :
    (p : Entry → Bool) (xs ys : List Entry) → keep_if p (xs ++ ys) ≡ keep_if p xs ++ keep_if p ys
keep_if-append p [] ys = refl
keep_if-append p (x ∷ xs) ys = ground (arith, keep_if-append p xs ys)

releases-evict_oldest : (xs ys : List Entry) → evict_oldest xs ≡ some ys → releases ys ≡ releases xs
unfolding evict_oldest
releases-evict_oldest [] ys h = cc
releases-evict_oldest (x ∷ xs) ys h = elim (Option-cases (evict_oldest xs)) [
  | inl e ↦ ground arith
  | inr (zs, e) ↦ ground (arith, releases-evict_oldest xs zs e)
]

-- Everything queued is a release.
pub evict_oldest-none :
    (xs : List Entry) → evict_oldest xs ≡ none → All (λ e. is_release e.msg ≡ true) xs
unfolding evict_oldest
evict_oldest-none [] h = tt
evict_oldest-none (x ∷ xs) h = ground (arith, evict_oldest-none xs)

-- A release is only ever given up for another release: while the list has room or holds an entry
-- that is no release, every release stays, in order, and the new one comes last.
pub releases-enqueue_list :
    (xs : List Entry) (e : Entry)
    → (length xs < k_capacity) ⊎ (evict_oldest xs ≢ none)
    → releases (enqueue_list xs e) ≡ releases xs ++ releases (e ∷ [])
unfolding enqueue_list
releases-enqueue_list xs e h = elim (Option-cases (evict_oldest xs)) [
  | inl stuck ↦ ground (arith, keep_if-append (λ x. is_release x.msg) xs (e ∷ []))
  | inr (ys, evicts) ↦ ground (
    arith,
    releases-evict_oldest xs ys evicts,
    keep_if-append (λ x. is_release x.msg) xs (e ∷ []),
    keep_if-append (λ x. is_release x.msg) ys (e ∷ []),
  )
]
