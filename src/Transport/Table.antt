-- ===== src/Transport/Table.antt =====
-- include/esp_now_midi.h: peers are added and removed, in the list and in the driver.
use esp_now_midi.Base.{
  ◌||◌, ℕ, Bool, true, false, not, ◌&&◌, none, some, List, [], ◌∷◌, ◌++◌, ltb, leb, ◌==◌,
  if◌then◌else◌, length, map, keep_if, ◌!=◌,
}
use esp_now_midi.PeerMutes.{max_peers}
use esp_now_midi.Transport.Peers.{
  PeerInfo, index_of, remove_at, has_peer, get_peer, new_peer, mark_seen, holds,
}

-- The driver's peer table: `esp_now_add_peer` and `esp_now_del_peer`, with whether they return
-- ESP_OK, `esp_now_deinit` followed by `esp_now_init`, and `esp_now_is_peer_exist`.
pub record EspNow (D : Type 0) : Type 0 where
  pub add_driver_peer : D → ℕ → D × Bool
  pub del_driver_peer : D → ℕ → D × Bool
  pub init_again : D → D
  pub knows : D → ℕ → Bool

-- The list and the driver, with the addresses that a task is in the middle of something with.
-- `pending`: `addPeer` has handed it to the driver, and it has not reached the list. `checked`:
-- `removePeer` has found it, and has not asked the driver yet. `leaving`: the driver has dropped it
-- for `removePeer`, which has not been at the list yet. `cleared`: it is out of the list, or found no
-- room there, and the driver has still to drop it. `missing`: a restart took it from the driver, and
-- has not given it back.
pub record Table (D : Type 0) : Type 0 where
  pub driver : D
  pub peers : List PeerInfo
  pub pending : List ℕ
  pub checked : List ℕ
  pub leaving : List ℕ
  pub cleared : List ℕ
  pub missing : List ℕ

-- The first address that is equal is left out.
unfoldable pub without : ℕ → List ℕ → List ℕ
without mac [] = []
without mac (m ∷ macs) = let rest = without mac macs in if m == mac then macs else m ∷ rest

-- The critical section of `removePeer`
unfoldable pub take_peer : List PeerInfo → ℕ → List PeerInfo
take_peer peers mac = elim (index_of peers mac) [ none ↦ peers | some i ↦ remove_at i peers ]

module _ {D : Type 0} (esp : EspNow D) where
  -- `addDriverPeer` in `addPeer`
  unfoldable pub offer_peer : Table D → ℕ → Table D × Bool
  offer_peer t mac =
      let (d, ok) = esp.add_driver_peer t.driver mac in
      if ok
      then (record t { driver = d; pending = mac ∷ t.pending }, true)
      else (record t { driver = d }, false)

  -- `addPeer` up to the driver's answer
  unfoldable pub begin_add : Table D → ℕ → Table D × Bool
  unfolding offer_peer
  begin_add t mac =
      let offered = offer_peer t mac in
      if leb max_peers (length t.peers) then (t, false) else offered

  -- The critical section of `addPeer`; another task may have filled the list meanwhile.
  unfoldable pub end_add : Table D → ℕ → Table D × Bool
  unfolding without
  end_add t mac =
      let rest = without mac t.pending in
      if ltb (length t.peers) max_peers
      then (record t { peers = t.peers ++ new_peer mac ∷ []; pending = rest }, true)
      else (record t { pending = rest; cleared = mac ∷ t.cleared }, false)

  -- `esp_now_del_peer` after the critical section of `addPeer` and of `clearPeers`
  unfoldable pub drop_cleared : Table D → ℕ → Table D
  unfolding without
  drop_cleared t mac = record t {
    driver = (esp.del_driver_peer t.driver mac).0;
    cleared = without mac t.cleared;
  }

  unfoldable pub undo_add : ℕ → Table D × Bool → Table D × Bool
  unfolding drop_cleared
  undo_add mac (t, true) = (t, true)
  undo_add mac (t, false) = (drop_cleared t mac, false)

  unfoldable pub finish_add : ℕ → Table D × Bool → Table D × Bool
  unfolding end_add undo_add
  finish_add mac (t, false) = (t, false)
  finish_add mac (t, true) = undo_add mac (end_add t mac)

  unfoldable pub add_peer : Table D → ℕ → Table D × Bool
  unfolding begin_add finish_add
  add_peer t mac = finish_add mac (begin_add t mac)

  -- `removePeer`: its test, its call of the driver and its critical section
  unfoldable pub check_peer : Table D → ℕ → Table D × Bool
  check_peer t mac =
      if has_peer t.peers mac then (record t { checked = mac ∷ t.checked }, true) else (t, false)

  unfoldable pub drop_checked : Table D → ℕ → Table D × Bool
  unfolding without
  drop_checked t mac =
      let (d, ok) = esp.del_driver_peer t.driver mac in
      let rest = without mac t.checked in
      if ok
      then (record t { driver = d; checked = rest; leaving = mac ∷ t.leaving }, true)
      else (record t { driver = d; checked = rest }, false)

  unfoldable pub take_leaving : Table D → ℕ → Table D
  unfolding take_peer without
  take_leaving t mac = record t { peers = take_peer t.peers mac; leaving = without mac t.leaving }

  unfoldable pub drop_found : ℕ → Table D × Bool → Table D × Bool
  unfolding drop_checked
  drop_found mac (t, false) = (t, false)
  drop_found mac (t, true) = drop_checked t mac

  unfoldable pub take_dropped : ℕ → Table D × Bool → Table D × Bool
  unfolding take_leaving
  take_dropped mac (t, false) = (t, false)
  take_dropped mac (t, true) = (take_leaving t mac, true)

  unfoldable pub remove_peer : Table D → ℕ → Table D × Bool
  unfolding check_peer drop_found take_dropped
  remove_peer t mac = take_dropped mac (drop_found mac (check_peer t mac))

  -- `removePeer` by index
  unfoldable pub remove_peer_at : Table D → ℕ → Table D × Bool
  unfolding remove_peer
  remove_peer_at t index = elim (get_peer t.peers index) [
    | none ↦ (t, false)
    | some mac ↦ remove_peer t mac
  ]

  -- `clearPeers`: the list is emptied in a critical section, then each peer is taken from the driver.
  unfoldable pub empty_list : Table D → Table D
  empty_list t = record t { peers = []; cleared = map (λ peer. peer.mac) t.peers ++ t.cleared }

  unfoldable pub drop_all : Table D → List ℕ → Table D
  unfolding drop_cleared
  drop_all t [] = t
  drop_all t (mac ∷ macs) = drop_all (drop_cleared t mac) macs

  unfoldable pub clear_peers : Table D → Table D
  unfolding empty_list drop_all
  clear_peers t = drop_all (empty_list t) (map (λ peer. peer.mac) t.peers)

  -- `restartEspNow`: the driver forgets its peers, and is then given those of the list back.
  unfoldable pub forget_driver : Table D → Table D
  forget_driver t = record t {
    driver = esp.init_again t.driver;
    missing = map (λ peer. peer.mac) t.peers ++ (t.pending ++ t.missing);
  }

  unfoldable pub give_back : Table D → ℕ → Table D
  give_back t mac =
      let (d, ok) = esp.add_driver_peer t.driver mac in
      record t { driver = d; missing = if ok then keep_if (λ m. m != mac) t.missing else t.missing }

  unfoldable pub give_all : Table D → List ℕ → Table D
  unfolding give_back
  give_all t [] = t
  give_all t (mac ∷ macs) = give_all (give_back t mac) macs

  unfoldable pub restart_driver : Table D → Table D
  unfolding forget_driver give_all
  restart_driver t = give_all (forget_driver t) (map (λ peer. peer.mac) t.peers)

  -- `addDiscoveredPeers`, for the addresses that it has taken
  unfoldable pub see_added : ℕ → ℕ → Table D × Bool → Table D
  see_added mac now (t, false) = t
  see_added mac now (t, true) = record t { peers = mark_seen t.peers mac now }

  unfoldable pub add_discovered : Bool → List ℕ → Table D → ℕ → Table D
  unfolding add_peer see_added
  add_discovered enabled [] t now = t
  add_discovered enabled (mac ∷ macs) t now =
      let added = see_added mac now (add_peer t mac) in
      add_discovered enabled macs (if enabled && not (has_peer t.peers mac) then added else t) now

-- An address that is on its way out, or that a restart has still to give back
unfoldable pub is_busy : {D : Type 0} → Table D → ℕ → Bool
is_busy t mac =
    holds t.checked mac || holds t.leaving mac || holds t.cleared mac || holds t.missing mac
