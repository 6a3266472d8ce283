-- ===== src/Transport/Peers.antt =====
-- include/esp_now_midi.h: the peer list.
use esp_now_midi.Base.{
  ℕ, zero, suc, is_some, ◌+◌, ◌^◌, Bool, true, false, not, ◌&&◌, ◌||◌, Option, none, some, List, [],
  ◌∷◌, ◌++◌, map, ltb, leb, ◌==◌, if◌then◌else◌, length, take, u32, sub32,
}

-- `PeerInfo`. An address is only copied and compared, so it is its packed number, which `packMac`
-- makes of the six bytes as that of include/PeerMuteList.h does.
pub record PeerInfo : Type 0 where
  pub mac : ℕ
  pub last_seen_ms : ℕ
  pub seen : Bool
  pub missed : ℕ
  pub unreachable : Bool
  pub next_probe_ms : ℕ

abbrev pub unreachable_after : ℕ
unreachable_after = 5

abbrev pub probe_interval_ms : ℕ
probe_interval_ms = 2000

abbrev pub max_discovered : ℕ
max_discovered = 4

-- `indexOfLocked`: the index, or `none` for -1. The list is the first `_peersCount` entries.
unfoldable pub index_of : List PeerInfo → ℕ → Option ℕ
index_of [] packed = none
index_of (peer ∷ peers) packed =
    let rest = index_of peers packed in
    if peer.mac == packed then some 0 else elim rest [ none ↦ none | some i ↦ some (suc i) ]

-- `_peers[index]` changed in place, and taken out as the loop of `removePeer` does.
unfoldable pub change_at : (PeerInfo → PeerInfo) → ℕ → List PeerInfo → List PeerInfo
change_at f i [] = []
change_at f zero (peer ∷ peers) = f peer ∷ peers
change_at f (suc i) (peer ∷ peers) = peer ∷ change_at f i peers

unfoldable pub remove_at : ℕ → List PeerInfo → List PeerInfo
remove_at i [] = []
remove_at zero (peer ∷ peers) = peers
remove_at (suc i) (peer ∷ peers) = peer ∷ remove_at i peers

-- `hasPeer`
unfoldable pub has_peer : List PeerInfo → ℕ → Bool
has_peer peers mac = is_some (index_of peers mac)

-- The entry of `_peers[index]`, inside the list
unfoldable pub entry_at : List PeerInfo → ℕ → Option PeerInfo
entry_at [] i = none
entry_at (peer ∷ peers) zero = some peer
entry_at (peer ∷ peers) (suc i) = entry_at peers i

-- `getPeer`, for an index that is not negative
unfoldable pub get_peer : List PeerInfo → ℕ → Option ℕ
get_peer peers index =
    if leb (length peers) index
    then none
    else elim (entry_at peers index) [ none ↦ none | some peer ↦ some peer.mac ]

-- `copyPeersLocked`
unfoldable pub copy_peers : List PeerInfo → ℕ → List ℕ
copy_peers peers max = map (λ peer. peer.mac) (take max peers)

-- `_peers[indexOfLocked(mac)]`
unfoldable pub peer_of : List PeerInfo → ℕ → Option PeerInfo
peer_of peers mac = elim (index_of peers mac) [ none ↦ none | some i ↦ entry_at peers i ]

-- `isPeerReachable`
unfoldable pub is_peer_reachable : List PeerInfo → ℕ → Bool
unfolding peer_of
is_peer_reachable peers mac = elim (peer_of peers mac) [
  | none ↦ false
  | some peer ↦ not peer.unreachable
]

-- `getPeerLastSeen`
unfoldable pub get_peer_last_seen : List PeerInfo → ℕ → Option ℕ
unfolding peer_of
get_peer_last_seen peers mac = elim (peer_of peers mac) [
  | none ↦ none
  | some peer ↦ if not peer.seen then none else some peer.last_seen_ms
]

-- The peer that `addPeer` writes behind the list.
unfoldable pub new_peer : ℕ → PeerInfo
new_peer mac = record {
  mac = mac;
  last_seen_ms = 0;
  seen = false;
  missed = 0;
  unreachable = false;
  next_probe_ms = 0;
}

unfoldable pub change_peer : (PeerInfo → PeerInfo) → List PeerInfo → ℕ → List PeerInfo
change_peer f peers mac = elim (index_of peers mac) [ none ↦ peers | some i ↦ change_at f i peers ]

-- `markSeen`
unfoldable pub seen_at : ℕ → PeerInfo → PeerInfo
seen_at now peer = record peer { last_seen_ms = now; seen = true; missed = 0; unreachable = false }

unfoldable pub mark_seen : List PeerInfo → ℕ → ℕ → List PeerInfo
unfolding change_peer seen_at
mark_seen peers mac now = change_peer (seen_at now) peers mac

-- `noteDelivery` of one peer
unfoldable pub count_delivery : Bool → ℕ → PeerInfo → PeerInfo
count_delivery delivered now peer =
    let missed = if ltb peer.missed 255 then peer.missed + 1 else peer.missed in
    if delivered
    then record peer { missed = 0; unreachable = false }
    else if not peer.unreachable && leb unreachable_after missed
    then record peer {
      missed = missed;
      unreachable = true;
      next_probe_ms = u32 (now + probe_interval_ms);
    }
    else record peer { missed = missed }

unfoldable pub note_delivery : List PeerInfo → ℕ → Bool → ℕ → List PeerInfo
unfolding change_peer count_delivery
note_delivery peers packed delivered now = change_peer (count_delivery delivered now) peers packed

-- `static_cast<int32_t>(now - peer.nextProbeMs) >= 0`
unfoldable pub probe_due : ℕ → PeerInfo → Bool
probe_due now peer = ltb (sub32 now peer.next_probe_ms) (2 ^ 31)

-- What the loop of `copySendTargets` leaves
pub record Targets : Type 0 where
  pub peers : List PeerInfo
  pub reachable : List ℕ
  pub due : List ℕ

unfoldable pub copy_send_targets : ℕ → List PeerInfo → Targets
unfolding probe_due
copy_send_targets now [] = record { peers = []; reachable = []; due = [] }
copy_send_targets now (peer ∷ peers) =
    let rest = copy_send_targets now peers in
    if not peer.unreachable
    then record rest { peers = peer ∷ rest.peers; reachable = peer.mac ∷ rest.reachable }
    else if probe_due now peer
    then record rest {
      peers = record peer { next_probe_ms = u32 (now + probe_interval_ms) } ∷ rest.peers;
      due = peer.mac ∷ rest.due;
    }
    else record rest { peers = peer ∷ rest.peers }

-- `queueDiscovered`: the addresses of unknown senders that wait, and whether one was queued.
unfoldable pub holds : List ℕ → ℕ → Bool
holds [] mac = false
holds (waiting ∷ macs) mac = waiting == mac || holds macs mac

unfoldable pub queue_discovered : List PeerInfo → List ℕ → ℕ → List ℕ × Bool
unfolding has_peer holds
queue_discovered peers discovered mac =
    if has_peer peers mac || leb max_discovered (length discovered)
    then (discovered, false)
    else if holds discovered mac
    then (discovered, false)
    else (discovered ++ mac ∷ [], true)
