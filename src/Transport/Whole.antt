-- ===== src/Transport/Whole.antt =====
-- include/esp_now_midi.h: whole operations on the peer list, when no other task is at it.
use esp_now_midi.Base.{
  ltb, ◌==◌, ℕ, ◌≡◌, refl, inl, inr, Bool, true, false, List, [], ◌∷◌, arith, leb, Bool-cases,
  Option-cases, length, not, ◌&&◌,
}
use esp_now_midi.PeerMutes.{max_peers}
use esp_now_midi.Transport.Peers.{has_peer, get_peer, holds}
use esp_now_midi.Transport.Table.{
  see_added, add_discovered, without, EspNow, Table, offer_peer, begin_add, end_add, drop_cleared,
  undo_add, finish_add, add_peer, check_peer, drop_found, take_dropped, remove_peer, remove_peer_at,
  empty_list, drop_all, clear_peers, forget_driver, give_back, give_all, restart_driver, is_busy,
}
use esp_now_midi.Transport.Addresses.{
  macs-mark_seen, macs, Distinct, holds-joined, holds-without_other,
}
use esp_now_midi.Transport.TableSteps.{
  IsTable-same, IsEspNow, IsTable, IsTable-offer_peer, IsTable-end_add, IsTable-drop_cleared,
}
use esp_now_midi.Transport.Removals.{
  IsTable-check_peer, IsTable-drop_checked, IsTable-take_leaving, IsTable-empty_list,
  IsTable-forget_driver, IsTable-give_back,
}

module _ {D : Type 0} (esp : EspNow D) (laws : IsEspNow esp) where
  begin_add_pending :
      (t : Table D) (mac : ℕ)
      → (begin_add esp t mac).1 ≡ true
      → holds (begin_add esp t mac).0.pending mac ≡ true
  unfolding begin_add offer_peer holds
  begin_add_pending t mac begun = ground arith

  IsTable-begin_add :
      (t : Table D) (mac : ℕ)
      → is_busy t mac ≡ false
      → IsTable esp t
      → IsTable esp (begin_add esp t mac).0
  unfolding begin_add
  IsTable-begin_add t mac free v = elim (Bool-cases (leb max_peers (length t.peers))) [
    | inl full ↦ rw full v
    | inr room ↦ rw room (IsTable-offer_peer esp laws t mac free v)
  ]

  end_add_cleared :
      (t : Table D) (mac : ℕ)
      → (end_add esp t mac).1 ≡ false
      → holds (end_add esp t mac).0.cleared mac ≡ true
  unfolding end_add holds
  end_add_cleared t mac full = ground arith

  IsTable-undo_add :
      (mac : ℕ) (r : Table D × Bool)
      → IsTable esp r.0
      → (r.1 ≡ false → holds r.0.cleared mac ≡ true)
      → IsTable esp (undo_add esp mac r).0
  unfolding undo_add
  IsTable-undo_add mac (t, true) v waits = v
  IsTable-undo_add mac (t, false) v waits = IsTable-drop_cleared esp laws t mac (waits refl) v

  IsTable-finish_add :
      (mac : ℕ) (r : Table D × Bool)
      → IsTable esp r.0
      → (r.1 ≡ true → holds r.0.pending mac ≡ true)
      → IsTable esp (finish_add esp mac r).0
  unfolding finish_add
  IsTable-finish_add mac (t, false) v waits = v
  IsTable-finish_add mac (t, true) v waits =
      IsTable-undo_add mac (end_add esp t mac) (IsTable-end_add esp laws t mac (waits refl) v)
        (end_add_cleared t mac)

  -- A whole addPeer keeps the list in order.
  pub IsTable-add_peer :
      (t : Table D) (mac : ℕ)
      → is_busy t mac ≡ false
      → IsTable esp t
      → IsTable esp (add_peer esp t mac).0
  unfolding add_peer
  IsTable-add_peer t mac free v =
      IsTable-finish_add mac (begin_add esp t mac) (IsTable-begin_add t mac free v)
        (begin_add_pending t mac)

  check_peer_checked :
      (t : Table D) (mac : ℕ)
      → (check_peer esp t mac).1 ≡ true
      → holds (check_peer esp t mac).0.checked mac ≡ true
  unfolding check_peer holds
  check_peer_checked t mac found = ground arith

  IsTable-drop_found :
      (mac : ℕ) (r : Table D × Bool)
      → IsTable esp r.0
      → (r.1 ≡ true → holds r.0.checked mac ≡ true)
      → IsTable esp (drop_found esp mac r).0
  unfolding drop_found
  IsTable-drop_found mac (t, false) v waits = v
  IsTable-drop_found mac (t, true) v waits = IsTable-drop_checked esp laws t mac (waits refl) v

  IsTable-take_dropped :
      (mac : ℕ) (r : Table D × Bool) → IsTable esp r.0 → IsTable esp (take_dropped esp mac r).0
  unfolding take_dropped
  IsTable-take_dropped mac (t, false) v = v
  IsTable-take_dropped mac (t, true) v = IsTable-take_leaving esp laws t mac v

  -- So does a whole removePeer, by the address or by the index.
  pub IsTable-remove_peer :
      (t : Table D) (mac : ℕ) → IsTable esp t → IsTable esp (remove_peer esp t mac).0
  unfolding remove_peer
  IsTable-remove_peer t mac v =
      IsTable-take_dropped mac (drop_found esp mac (check_peer esp t mac)) (
        IsTable-drop_found mac (check_peer esp t mac) (IsTable-check_peer esp laws t mac v)
          (check_peer_checked t mac))

  pub IsTable-remove_peer_at :
      (t : Table D) (index : ℕ) → IsTable esp t → IsTable esp (remove_peer_at esp t index).0
  unfolding remove_peer_at
  IsTable-remove_peer_at t index v = elim (Option-cases (get_peer t.peers index)) [
    | inl missing ↦ rw (missing, remove_peer_at) v
    | inr (mac, found) ↦ rw (found, remove_peer_at) (IsTable-remove_peer t mac v)
  ]

  IsTable-drop_all :
      (t : Table D) (addresses : List ℕ)
      → Distinct addresses
      → ((m : ℕ) → holds addresses m ≡ true → holds t.cleared m ≡ true)
      → IsTable esp t
      → IsTable esp (drop_all esp t addresses)
  unfolding drop_all drop_cleared holds
  IsTable-drop_all t [] apart waits v = v
  IsTable-drop_all t (mac ∷ rest) apart waits v =
      IsTable-drop_all (drop_cleared esp t mac) rest apart.1
        (λ m held. ground (arith, apart.0, held, waits m, holds-without_other mac t.cleared m))
        (IsTable-drop_cleared esp laws t mac (waits mac (ground arith)) v)

  -- So does a whole clearPeers.
  pub IsTable-clear_peers : (t : Table D) → IsTable esp t → IsTable esp (clear_peers esp t)
  unfolding clear_peers empty_list
  IsTable-clear_peers t v =
      IsTable-drop_all (empty_list esp t) (macs t.peers) v.distinct
        (λ m held. ground (arith, held, holds-joined (macs t.peers) t.cleared m))
        (IsTable-empty_list esp laws t v)

  IsTable-give_all :
      (t : Table D) (addresses : List ℕ) → IsTable esp t → IsTable esp (give_all esp t addresses)
  unfolding give_all
  IsTable-give_all t [] v = v
  IsTable-give_all t (mac ∷ rest) v =
      IsTable-give_all (give_back esp t mac) rest (IsTable-give_back esp laws t mac v)

  -- So does a whole restart of ESP-NOW.
  pub IsTable-restart_driver : (t : Table D) → IsTable esp t → IsTable esp (restart_driver esp t)
  unfolding restart_driver
  IsTable-restart_driver t v =
      IsTable-give_all (forget_driver esp t) (macs t.peers) (IsTable-forget_driver esp laws t v)

  -- Nothing is on its way out, and nothing is missing.
  abbrev IsQuiet : Table D → Type 0
  IsQuiet t = (t.checked ≡ []) × (t.leaving ≡ []) × (t.cleared ≡ []) × (t.missing ≡ [])

  IsQuiet-free : (t : Table D) (mac : ℕ) → IsQuiet t → is_busy t mac ≡ false
  unfolding is_busy holds
  IsQuiet-free t mac quiet = rw (quiet.0, quiet.1, quiet.2, quiet.3) refl

  IsQuiet-begin_add : (t : Table D) (mac : ℕ) → IsQuiet t → IsQuiet (begin_add esp t mac).0
  unfolding begin_add offer_peer
  IsQuiet-begin_add t mac quiet =
      (ground (arith, quiet), ground (arith, quiet), ground (arith, quiet), ground (arith, quiet))

  IsQuiet-finish_add :
      (mac : ℕ) (r : Table D × Bool) → IsQuiet r.0 → IsQuiet (finish_add esp mac r).0
  unfolding finish_add undo_add end_add drop_cleared without
  IsQuiet-finish_add mac (t, false) quiet = quiet
  IsQuiet-finish_add mac (t, true) quiet = elim (Bool-cases (ltb (length t.peers) max_peers)) [
    | inl room ↦ rw room quiet
    | inr full ↦ rw (full, same mac) quiet
  ]
    where
      same : (m : ℕ) → m == m ≡ true
      same m = ground arith

  IsQuiet-see_added :
      (mac now : ℕ) (r : Table D × Bool) → IsQuiet r.0 → IsQuiet (see_added esp mac now r)
  unfolding see_added
  IsQuiet-see_added mac now (t, false) quiet = quiet
  IsQuiet-see_added mac now (t, true) quiet = quiet

  IsTable-see_added :
      (mac now : ℕ) (r : Table D × Bool) → IsTable esp r.0 → IsTable esp (see_added esp mac now r)
  unfolding see_added
  IsTable-see_added mac now (t, false) v = v
  IsTable-see_added mac now (t, true) v =
      IsTable-same esp laws t _ (macs-mark_seen t.peers mac now) v

  -- A whole addDiscoveredPeers keeps the list in order when nothing is on its way out or missing.
  pub IsTable-add_discovered :
      (enabled : Bool) (addresses : List ℕ) (t : Table D) (now : ℕ)
      → IsQuiet t
      → IsTable esp t
      → IsTable esp (add_discovered esp enabled addresses t now)
  unfolding add_discovered add_peer
  IsTable-add_discovered enabled [] t now quiet v = v
  IsTable-add_discovered enabled (mac ∷ rest) t now quiet v =
      elim (Bool-cases (enabled && not (has_peer t.peers mac))) [
        | inl new ↦ rw new (
            IsTable-add_discovered enabled rest _ now
              (IsQuiet-see_added mac now (add_peer esp t mac)
                (IsQuiet-finish_add mac (begin_add esp t mac) (IsQuiet-begin_add t mac quiet)))
              (IsTable-see_added mac now (add_peer esp t mac)
                (IsTable-add_peer t mac (IsQuiet-free t mac quiet) v)))
        | inr old ↦ rw old (IsTable-add_discovered enabled rest t now quiet v)
      ]
