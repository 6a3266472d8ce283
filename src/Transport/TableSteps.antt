-- ===== src/Transport/TableSteps.antt =====
-- include/esp_now_midi.h: each step of an operation on the peer list keeps the list in order.
use esp_now_midi.Base.{
  ℕ, ap, ◌≤◌, List, ◌≡◌, inl, inr, true, false, not, ◌&&◌, ◌||◌, List, [], ◌∷◌, arith, ltb, ◌==◌,
  Bool-cases, length, length-append, length-map,
}
use esp_now_midi.PeerMutes.{max_peers}
use esp_now_midi.Transport.Peers.{PeerInfo, holds}
use esp_now_midi.Transport.Table.{EspNow, Table, offer_peer, end_add, drop_cleared, is_busy}
use esp_now_midi.Transport.Addresses.{
  macs, Distinct, holds-append, Distinct-append, holds-without, without_self, Distinct-without,
  macs-append,
}

-- What the driver documents: an address is accepted only when it is not known, and is known then;
-- a deletion takes no other address; a call that fails changes nothing.
pub record IsEspNow {D : Type 0} (esp : EspNow D) : Type 0 where
  pub add_new : (d : D) (m : ℕ) → (esp.add_driver_peer d m).1 ≡ true → esp.knows d m ≡ false
  pub add_known :
      (d : D) (m k : ℕ)
      → esp.knows (esp.add_driver_peer d m).0 k
        ≡ (esp.knows d k || (esp.add_driver_peer d m).1 && m == k)
  pub del_known :
      (d : D) (m k : ℕ)
      → esp.knows (esp.del_driver_peer d m).0 k
        ≡ (esp.knows d k && not ((esp.del_driver_peer d m).1 && m == k))

-- The list has at most 20 addresses, each once. The driver knows every one of them but those that
-- `removePeer` is taking out and those that a restart has not given back. An address that is on its
-- way into the list is in neither the list nor on its way out.
pub record IsTable {D : Type 0} (esp : EspNow D) (t : Table D) : Type 0 where
  pub small : length (macs t.peers) ≤ max_peers
  pub distinct : Distinct (macs t.peers)
  pub known :
      (m : ℕ)
      → holds (macs t.peers) m ≡ true
      → (holds t.leaving m || holds t.missing m || esp.knows t.driver m) ≡ true
  pub pending_distinct : Distinct t.pending
  pub pending_apart : (m : ℕ) → holds (macs t.peers) m ≡ true → holds t.pending m ≡ false
  pub pending_known :
      (m : ℕ) → holds t.pending m ≡ true → (holds t.missing m || esp.knows t.driver m) ≡ true
  pub checked_apart : (m : ℕ) → holds t.checked m ≡ true → holds t.pending m ≡ false
  pub cleared_apart :
      (m : ℕ) → holds t.cleared m ≡ true → (holds t.pending m || holds (macs t.peers) m) ≡ false

module _ {D : Type 0} (esp : EspNow D) (laws : IsEspNow esp) where
  pub IsTable-same :
      (t : Table D) (peers : List PeerInfo)
      → macs peers ≡ macs t.peers
      → IsTable esp t
      → IsTable esp (record t { peers = peers })
  IsTable-same t peers same v = record {
    small = rw same v.small;
    distinct = rw same v.distinct;
    known = rw same v.known;
    pending_distinct = v.pending_distinct;
    pending_apart = rw same v.pending_apart;
    pending_known = v.pending_known;
    checked_apart = v.checked_apart;
    cleared_apart = rw same v.cleared_apart;
  }

  -- The address is not on its way out, nor missing, and the driver takes it.
  pub IsTable-offer_peer :
      (t : Table D) (mac : ℕ)
      → is_busy t mac ≡ false
      → IsTable esp t
      → IsTable esp (offer_peer esp t mac).0
  unfolding offer_peer is_busy holds
  IsTable-offer_peer t mac free v = elim (Bool-cases (esp.add_driver_peer t.driver mac).1) [
    | inl ok ↦ rw ok (record {
      small = v.small;
      distinct = v.distinct;
      known = λ m held. ground (arith, laws.add_known t.driver mac m, v.known m held);
      pending_distinct = (
        ground (arith, free, laws.add_new t.driver mac ok, v.pending_known mac),
        v.pending_distinct,
      );
      pending_apart = λ m held.
          ground
            (arith, free, laws.add_new t.driver mac ok, v.known m held, v.pending_apart m held);
      pending_known = λ m held. ground (arith, laws.add_known t.driver mac m, v.pending_known m);
      checked_apart = λ m held. ground (arith, free, v.checked_apart m held);
      cleared_apart = λ m held. ground (arith, free, v.cleared_apart m held);
    })
    | inr bad ↦ rw bad (record {
      small = v.small;
      distinct = v.distinct;
      known = λ m held. ground (arith, laws.add_known t.driver mac m, v.known m held);
      pending_distinct = v.pending_distinct;
      pending_apart = v.pending_apart;
      pending_known =
          λ m held. ground (arith, laws.add_known t.driver mac m, v.pending_known m held);
      checked_apart = v.checked_apart;
      cleared_apart = v.cleared_apart;
    })
  ]

  pub IsTable-end_add :
      (t : Table D) (mac : ℕ)
      → holds t.pending mac ≡ true
      → IsTable esp t
      → IsTable esp (end_add esp t mac).0
  unfolding end_add holds
  IsTable-end_add t mac waits v =
      let fewer = without_self mac t.pending v.pending_distinct in
      elim (Bool-cases (ltb (length t.peers) max_peers)) [
        | inl room ↦ rw room (record {
          small = rw (macs-append t.peers mac) (
              ground
                (arith, length-append (macs t.peers) (mac ∷ []), length-map t.peers (λ p. p.mac)));
          distinct =
              rw (macs-append t.peers mac) (
                Distinct-append (macs t.peers) mac v.distinct
                  (ground (arith, v.pending_apart mac)));
          known = λ m held. ground (
            arith,
            ap (λ l. holds l m) (macs-append t.peers mac),
            holds-append (macs t.peers) mac m,
            v.known m,
            v.pending_known mac waits,
          );
          pending_distinct = Distinct-without mac t.pending v.pending_distinct;
          pending_apart = λ m held. ground (
            arith,
            fewer,
            ap (λ l. holds l m) (macs-append t.peers mac),
            holds-append (macs t.peers) mac m,
            v.pending_apart m,
            holds-without mac t.pending m,
          );
          pending_known = λ m held. v.pending_known m (holds-without mac t.pending m held);
          checked_apart =
              λ m held. ground (arith, v.checked_apart m held, holds-without mac t.pending m);
          cleared_apart = λ m held. ground (
            arith,
            ap (λ l. holds l m) (macs-append t.peers mac),
            holds-append (macs t.peers) mac m,
            v.cleared_apart m held,
            waits,
            holds-without mac t.pending m,
          );
        })
        | inr full ↦ rw full (record {
          small = v.small;
          distinct = v.distinct;
          known = v.known;
          pending_distinct = Distinct-without mac t.pending v.pending_distinct;
          pending_apart =
              λ m held. ground (arith, v.pending_apart m held, holds-without mac t.pending m);
          pending_known = λ m held. v.pending_known m (holds-without mac t.pending m held);
          checked_apart =
              λ m held. ground (arith, v.checked_apart m held, holds-without mac t.pending m);
          cleared_apart = λ m held. ground (
            arith,
            fewer,
            waits,
            v.cleared_apart m,
            v.pending_apart m,
            holds-without mac t.pending m,
          );
        })
      ]

  pub IsTable-drop_cleared :
      (t : Table D) (mac : ℕ)
      → holds t.cleared mac ≡ true
      → IsTable esp t
      → IsTable esp (drop_cleared esp t mac)
  unfolding drop_cleared
  IsTable-drop_cleared t mac waits v = record {
    small = v.small;
    distinct = v.distinct;
    known = λ m held.
        ground (arith, laws.del_known t.driver mac m, v.known m held, v.cleared_apart mac waits);
    pending_distinct = v.pending_distinct;
    pending_apart = v.pending_apart;
    pending_known = λ m held.
        ground
          (arith, laws.del_known t.driver mac m, v.pending_known m held, v.cleared_apart mac waits);
    checked_apart = v.checked_apart;
    cleared_apart = λ m held. v.cleared_apart m (holds-without mac t.cleared m held);
  }
