-- ===== src/Transport/Reach.antt =====
-- include/esp_now_midi.h: which peers a send goes to.
use esp_now_midi.Base.{
  ℕ, ◌+◌, ◌^◌, ◌<◌, ◌≡◌, refl, ap, Bool, true, false, not, ◌&&◌, ◌||◌, List, [], ◌∷◌, arith, ltb,
  leb, ◌==◌, if◌then◌else◌, keep_if, u32,
}
use esp_now_midi.Transport.Peers.{
  PeerInfo, new_peer, seen_at, count_delivery, probe_due, copy_send_targets, holds,
}
use esp_now_midi.Transport.Addresses.{macs, Distinct, macs-copy_send_targets}

-- What the send callback and the receive callback report of one peer, the latest first.
pub data Report : Type 0 where
  confirmed : Bool → ℕ → Report
  heard_from : ℕ → Report

unfoldable pub after : List Report → PeerInfo → PeerInfo
unfolding count_delivery seen_at
after [] peer = peer
after (confirmed ok now ∷ older) peer = count_delivery ok now (after older peer)
after (heard_from now ∷ older) peer = seen_at now (after older peer)

-- The sends in a row that were not acknowledged, up to now.
abbrev pub misses : List Report → ℕ
misses [] = 0
misses (confirmed true now ∷ older) = 0
misses (confirmed false now ∷ older) = misses older + 1
misses (heard_from now ∷ older) = 0

-- The counter of misses, which stops at 255.
unfoldable pub capped : ℕ → ℕ
capped n = if ltb n 255 then n else 255

capped_next : (n : ℕ) → capped (n + 1) ≡ (if ltb (capped n) 255 then capped n + 1 else capped n)
unfolding capped
capped_next n = ground arith

capped_unreachable : (n : ℕ) → leb 5 (n + 1) ≡ (leb 5 n || leb 5 (capped (n + 1)))
unfolding capped
capped_unreachable n = ground arith

count_delivery_missed :
    (now n : ℕ) (p : PeerInfo)
    → p.unreachable ≡ leb 5 n
    → p.missed ≡ capped n
    → ((count_delivery false now p).unreachable ≡ leb 5 (n + 1))
      × ((count_delivery false now p).missed ≡ capped (n + 1))
unfolding count_delivery
count_delivery_missed now n p unreachable missed =
    ground (arith, capped_next n, capped_unreachable n)

-- A new peer is unreachable when, and only when, the last five sends to it or more were not
-- acknowledged and nothing came from it meanwhile; its counter of misses stops at 255.
pub after-misses :
    (reports : List Report) (mac : ℕ)
    → ((after reports (new_peer mac)).unreachable ≡ leb 5 (misses reports))
      × ((after reports (new_peer mac)).missed ≡ capped (misses reports))
unfolding after new_peer count_delivery seen_at capped
after-misses [] mac = (refl, refl)
after-misses (confirmed true now ∷ older) mac = (refl, refl)
after-misses (confirmed false now ∷ older) mac =
    count_delivery_missed now (misses older) (after older (new_peer mac)) (after-misses older mac).0
      (after-misses older mac).1
after-misses (heard_from now ∷ older) mac = (refl, refl)

-- Every peer that is not unreachable is sent to, in the order of the list; of the others those
-- whose probe is due.
pub copy_send_targets_kept :
    (now : ℕ) (peers : List PeerInfo)
    → ((copy_send_targets now peers).reachable ≡ macs (keep_if (λ p. not p.unreachable) peers))
      × ((copy_send_targets now peers).due
          ≡ macs (keep_if (λ p. p.unreachable && probe_due now p) peers))
unfolding copy_send_targets
copy_send_targets_kept now [] = (refl, refl)
copy_send_targets_kept now (p ∷ peers) = ground (arith, copy_send_targets_kept now peers)

due-holds :
    (now : ℕ) (peers : List PeerInfo) (m : ℕ)
    → holds (macs peers) m ≡ false
    → holds (copy_send_targets now peers).due m ≡ false
unfolding copy_send_targets holds
due-holds now [] m h = refl
due-holds now (p ∷ peers) m h = ground (arith, due-holds now peers m)

-- The probe of a peer is not due again within the interval.
probe_due_again :
    (now later : ℕ) (p : PeerInfo)
    → now < 2 ^ 32
    → later < 2000
    → probe_due (u32 (now + later)) (record p { next_probe_ms = u32 (now + 2000) }) ≡ false
unfolding probe_due
probe_due_again now later p small soon = ground arith

-- The first peer of the list, by itself
abbrev probed : ℕ → PeerInfo → Bool
probed now p = p.unreachable && probe_due now p

abbrev visited : ℕ → PeerInfo → PeerInfo
visited now p = if probed now p then record p { next_probe_ms = u32 (now + 2000) } else p

due_cons :
    (now : ℕ) (p : PeerInfo) (peers : List PeerInfo) (m : ℕ)
    → holds (copy_send_targets now (p ∷ peers)).due m
      ≡ (probed now p && p.mac == m || holds (copy_send_targets now peers).due m)
unfolding copy_send_targets holds
due_cons now p peers m = ground arith

peers_cons :
    (now : ℕ) (p : PeerInfo) (peers : List PeerInfo)
    → (copy_send_targets now (p ∷ peers)).peers
      ≡ visited now p ∷ (copy_send_targets now peers).peers
unfolding copy_send_targets
peers_cons now p peers = ground arith

visited_mac : (now : ℕ) (p : PeerInfo) → (visited now p).mac ≡ p.mac
visited_mac now p = ground arith

visited_early :
    (now later : ℕ) (p : PeerInfo)
    → now < 2 ^ 32
    → later < 2000
    → probed now p ≡ true
    → probed (u32 (now + later)) (visited now p) ≡ false
visited_early now later p small soon due =
    rw due (ground (arith, probe_due_again now later p small soon))

-- Unacknowledged peers are probed at most once in two seconds: what `copySendTargets` lists as a
-- probe it does not list as one again within that time, for a list whose addresses differ and a
-- clock of 32 bits, which may turn over in between.
pub copy_send_targets_again :
    (now later : ℕ) (peers : List PeerInfo) (m : ℕ)
    → Distinct (macs peers)
    → now < 2 ^ 32
    → later < 2000
    → holds (copy_send_targets now peers).due m ≡ true
    → holds (copy_send_targets (u32 (now + later)) (copy_send_targets now peers).peers).due m
      ≡ false
unfolding copy_send_targets holds
copy_send_targets_again now later [] m d small soon listed = refl
copy_send_targets_again now later (p ∷ peers) m d small soon listed =
    let after_first = (copy_send_targets now peers).peers in
    rw
      (
        peers_cons now p peers,
        due_cons (u32 (now + later)) (visited now p) after_first m,
        visited_mac now p,
      )
      (ground (
        arith,
        due_cons now p peers m,
        visited_early now later p small soon,
        due-holds now peers m,
        due-holds (u32 (now + later)) after_first m,
        ap (λ l. holds l m) (macs-copy_send_targets now peers),
        copy_send_targets_again now later peers m d.1 small soon,
      ))
