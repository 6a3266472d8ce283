-- ===== src/Transport/Addresses.antt =====
-- include/esp_now_midi.h: the addresses of the peer list.
use esp_now_midi.Base.{
  ℕ, zero, suc, ◌≤◌, ◌≡◌, refl, ap, inl, inr, Bool, true, false, ◌||◌, List, [], ◌∷◌, ◌++◌, map,
  arith, ◌==◌, Bool-cases, Option-cases, length, keep_if, ◌!=◌, ◌&&◌, not,
}
use esp_now_midi.Transport.Peers.{
  PeerInfo, index_of, change_at, change_peer, remove_at, has_peer, new_peer, mark_seen, seen_at,
  note_delivery, count_delivery, copy_send_targets, holds,
}
use esp_now_midi.Transport.Table.{take_peer, without}

abbrev pub macs : List PeerInfo → List ℕ
macs peers = map (λ peer. peer.mac) peers

-- No address stands in the list twice.
abbrev pub Distinct : List ℕ → Type 0
Distinct [] = Unit
Distinct (m ∷ ms) = (holds ms m ≡ false) × Distinct ms

pub holds-append : (xs : List ℕ) (y m : ℕ) → holds (xs ++ y ∷ []) m ≡ (holds xs m || y == m)
unfolding holds
holds-append [] y m = ground arith
holds-append (x ∷ xs) y m = ground (arith, holds-append xs y m)

pub holds-joined : (xs ys : List ℕ) (m : ℕ) → holds (xs ++ ys) m ≡ (holds xs m || holds ys m)
unfolding holds
holds-joined [] ys m = refl
holds-joined (x ∷ xs) ys m = ground (arith, holds-joined xs ys m)

pub holds-keep_if :
    (xs : List ℕ) (x m : ℕ) → holds (keep_if (λ y. y != x) xs) m ≡ (holds xs m && not (x == m))
unfolding holds
holds-keep_if [] x m = refl
holds-keep_if (y ∷ xs) x m = ground (arith, holds-keep_if xs x m)

pub holds-without_other :
    (x : ℕ) (xs : List ℕ) (m : ℕ) → x == m ≡ false → holds (without x xs) m ≡ holds xs m
unfolding holds without
holds-without_other x [] m other = refl
holds-without_other x (y ∷ xs) m other = ground (arith, other, holds-without_other x xs m other)

pub Distinct-append :
    (xs : List ℕ) (y : ℕ) → Distinct xs → holds xs y ≡ false → Distinct (xs ++ y ∷ [])
unfolding holds
Distinct-append [] y d h = (refl, tt)
Distinct-append (x ∷ xs) y d h =
    (ground (arith, holds-append xs y x), Distinct-append xs y d.1 (ground arith))

pub holds-without :
    (x : ℕ) (xs : List ℕ) (m : ℕ) → holds (without x xs) m ≡ true → holds xs m ≡ true
unfolding holds without
holds-without x [] m h = h
holds-without x (y ∷ xs) m h = ground (arith, holds-without x xs m)

pub without_self : (x : ℕ) (xs : List ℕ) → Distinct xs → holds (without x xs) x ≡ false
unfolding holds without
without_self x [] d = refl
without_self x (y ∷ xs) d = ground (arith, without_self x xs d.1, d.0)

pub Distinct-without : (x : ℕ) (xs : List ℕ) → Distinct xs → Distinct (without x xs)
unfolding without holds
Distinct-without x [] d = tt
Distinct-without x (y ∷ xs) d = elim (Bool-cases (y == x)) [
  | inl same ↦ rw same d.1
  | inr other ↦ rw other (ground (arith, holds-without x xs y, d.0), Distinct-without x xs d.1)
]

pub length-without : (x : ℕ) (xs : List ℕ) → length (without x xs) ≤ length xs
unfolding without
length-without x [] = omega arith
length-without x (y ∷ xs) = ground (arith, length-without x xs)

pub has_peer_holds : (peers : List PeerInfo) (m : ℕ) → has_peer peers m ≡ holds (macs peers) m
unfolding has_peer index_of holds
has_peer_holds [] m = refl
has_peer_holds (p ∷ peers) m = ground (arith, has_peer_holds peers m)

pub macs-take_peer :
    (peers : List PeerInfo) (m : ℕ) → macs (take_peer peers m) ≡ without m (macs peers)
unfolding take_peer index_of remove_at without
macs-take_peer [] m = refl
macs-take_peer (p ∷ peers) m = ground (arith, macs-take_peer peers m)

pub macs-append :
    (peers : List PeerInfo) (m : ℕ) → macs (peers ++ new_peer m ∷ []) ≡ macs peers ++ m ∷ []
unfolding new_peer
macs-append [] m = refl
macs-append (p ∷ peers) m = ap (◌∷◌ p.mac) (macs-append peers m)

macs-change_at :
    (f : PeerInfo → PeerInfo) (i : ℕ) (peers : List PeerInfo)
    → ((p : PeerInfo) → (f p).mac ≡ p.mac)
    → macs (change_at f i peers) ≡ macs peers
unfolding change_at
macs-change_at f i [] same = refl
macs-change_at f zero (p ∷ peers) same = ap (λ m. m ∷ macs peers) (same p)
macs-change_at f (suc i) (p ∷ peers) same = ap (◌∷◌ p.mac) (macs-change_at f i peers same)

macs-change_peer :
    (f : PeerInfo → PeerInfo) (peers : List PeerInfo) (m : ℕ)
    → ((p : PeerInfo) → (f p).mac ≡ p.mac)
    → macs (change_peer f peers m) ≡ macs peers
unfolding change_peer
macs-change_peer f peers m same = elim (Option-cases (index_of peers m)) [
  | inl missing ↦ rw (missing, change_peer) refl
  | inr (i, found) ↦ rw (found, change_peer) (macs-change_at f i peers same)
]

pub macs-mark_seen : (peers : List PeerInfo) (m now : ℕ) → macs (mark_seen peers m now) ≡ macs peers
unfolding mark_seen seen_at
macs-mark_seen peers m now = macs-change_peer (seen_at now) peers m (λ p. refl)

count_delivery_mac : (ok : Bool) (now : ℕ) (p : PeerInfo) → (count_delivery ok now p).mac ≡ p.mac
unfolding count_delivery
count_delivery_mac ok now p = ground arith

pub macs-note_delivery :
    (peers : List PeerInfo) (m : ℕ) (ok : Bool) (now : ℕ)
    → macs (note_delivery peers m ok now) ≡ macs peers
unfolding note_delivery
macs-note_delivery peers m ok now =
    macs-change_peer (count_delivery ok now) peers m (count_delivery_mac ok now)

pub macs-copy_send_targets :
    (now : ℕ) (peers : List PeerInfo) → macs (copy_send_targets now peers).peers ≡ macs peers
unfolding copy_send_targets
macs-copy_send_targets now [] = refl
macs-copy_send_targets now (p ∷ peers) = ground (arith, macs-copy_send_targets now peers)
