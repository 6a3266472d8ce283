-- ===== src/Transport/Removals.antt =====
-- include/esp_now_midi.h: each step of removePeer, clearPeers and restartEspNow keeps the list in order.
use esp_now_midi.Base.{ℕ, ◌++◌, ◌≡◌, sym, ◌∙◌, inl, inr, true, arith, Bool-cases, ap}
use esp_now_midi.Transport.Peers.{has_peer, holds}
use esp_now_midi.Transport.Table.{
  take_peer, EspNow, Table, check_peer, drop_checked, take_leaving, empty_list, forget_driver,
  give_back,
}
use esp_now_midi.Transport.Addresses.{
  macs, holds-without, without_self, length-without, holds-joined, holds-keep_if,
  holds-without_other, Distinct-without, has_peer_holds, macs-take_peer,
}
use esp_now_midi.Transport.TableSteps.{IsEspNow, IsTable}

module _ {D : Type 0} (esp : EspNow D) (laws : IsEspNow esp) where
  pub IsTable-check_peer :
      (t : Table D) (mac : ℕ) → IsTable esp t → IsTable esp (check_peer esp t mac).0
  unfolding check_peer holds
  IsTable-check_peer t mac v = elim (Bool-cases (has_peer t.peers mac)) [
    | inr unknown ↦ rw unknown v
    | inl found ↦ rw found (record {
      small = v.small;
      distinct = v.distinct;
      known = v.known;
      pending_distinct = v.pending_distinct;
      pending_apart = v.pending_apart;
      pending_known = v.pending_known;
      checked_apart = λ m held. ground (
        arith,
        v.checked_apart m,
        v.pending_apart mac (sym (has_peer_holds t.peers mac) ∙ found),
      );
      cleared_apart = v.cleared_apart;
    })
  ]

  pub IsTable-drop_checked :
      (t : Table D) (mac : ℕ)
      → holds t.checked mac ≡ true
      → IsTable esp t
      → IsTable esp (drop_checked esp t mac).0
  unfolding drop_checked holds
  IsTable-drop_checked t mac waits v = elim (Bool-cases (esp.del_driver_peer t.driver mac).1) [
    | inl ok ↦ rw ok (record {
      small = v.small;
      distinct = v.distinct;
      known = λ m held. ground (arith, laws.del_known t.driver mac m, v.known m held);
      pending_distinct = v.pending_distinct;
      pending_apart = v.pending_apart;
      pending_known = λ m held.
          ground (
            arith,
            laws.del_known t.driver mac m,
            v.pending_known m held,
            v.checked_apart mac waits,
          );
      checked_apart = λ m held. v.checked_apart m (holds-without mac t.checked m held);
      cleared_apart = v.cleared_apart;
    })
    | inr bad ↦ rw bad (record {
      small = v.small;
      distinct = v.distinct;
      known = λ m held. ground (arith, laws.del_known t.driver mac m, v.known m held);
      pending_distinct = v.pending_distinct;
      pending_apart = v.pending_apart;
      pending_known =
          λ m held. ground (arith, laws.del_known t.driver mac m, v.pending_known m held);
      checked_apart = λ m held. v.checked_apart m (holds-without mac t.checked m held);
      cleared_apart = v.cleared_apart;
    })
  ]

  pub IsTable-take_leaving :
      (t : Table D) (mac : ℕ) → IsTable esp t → IsTable esp (take_leaving esp t mac)
  unfolding take_leaving
  IsTable-take_leaving t mac v =
      let fewer = without_self mac (macs t.peers) v.distinct in
      let left = macs-take_peer t.peers mac in
      let was : (m : ℕ)
          → holds (macs (take_peer t.peers mac)) m ≡ true
          → holds (macs t.peers) m ≡ true =
        λ m held. holds-without mac (macs t.peers) m (ap (λ l. holds l m) (sym left) ∙ held) in
      record {
        small = rw left (omega (arith, length-without mac (macs t.peers), v.small));
        distinct = rw left (Distinct-without mac (macs t.peers) v.distinct);
        known = λ m held. ground (
          arith,
          fewer,
          held,
          ap (λ l. holds l m) left,
          holds-without_other mac t.leaving m,
          v.known m (was m held),
        );
        pending_distinct = v.pending_distinct;
        pending_apart = λ m held. v.pending_apart m (was m held);
        pending_known = v.pending_known;
        checked_apart = v.checked_apart;
        cleared_apart = λ m held. ground (arith, v.cleared_apart m held, was m);
      }

  pub IsTable-empty_list : (t : Table D) → IsTable esp t → IsTable esp (empty_list esp t)
  unfolding empty_list holds
  IsTable-empty_list t v = record {
    small = omega arith;
    distinct = tt;
    known = λ m held. ground arith;
    pending_distinct = v.pending_distinct;
    pending_apart = λ m held. ground arith;
    pending_known = v.pending_known;
    checked_apart = v.checked_apart;
    cleared_apart = λ m held.
        ground
          (arith, holds-joined (macs t.peers) t.cleared m, v.cleared_apart m, v.pending_apart m);
  }

  pub IsTable-forget_driver : (t : Table D) → IsTable esp t → IsTable esp (forget_driver esp t)
  unfolding forget_driver
  IsTable-forget_driver t v = record {
    small = v.small;
    distinct = v.distinct;
    known = λ m held. ground (arith, holds-joined (macs t.peers) (t.pending ++ t.missing) m);
    pending_distinct = v.pending_distinct;
    pending_apart = v.pending_apart;
    pending_known = λ m held. ground (
      arith,
      holds-joined (macs t.peers) (t.pending ++ t.missing) m,
      holds-joined t.pending t.missing m,
    );
    checked_apart = v.checked_apart;
    cleared_apart = v.cleared_apart;
  }

  pub IsTable-give_back :
      (t : Table D) (mac : ℕ) → IsTable esp t → IsTable esp (give_back esp t mac)
  unfolding give_back
  IsTable-give_back t mac v = elim (Bool-cases (esp.add_driver_peer t.driver mac).1) [
    | inl ok ↦ rw ok (record {
      small = v.small;
      distinct = v.distinct;
      known = λ m held.
          ground (
            arith,
            ok,
            laws.add_known t.driver mac m,
            holds-keep_if t.missing mac m,
            v.known m held,
          );
      pending_distinct = v.pending_distinct;
      pending_apart = v.pending_apart;
      pending_known = λ m held. ground (
        arith,
        ok,
        laws.add_known t.driver mac m,
        holds-keep_if t.missing mac m,
        v.pending_known m held,
      );
      checked_apart = v.checked_apart;
      cleared_apart = v.cleared_apart;
    })
    | inr bad ↦ rw bad (record {
      small = v.small;
      distinct = v.distinct;
      known = λ m held. ground (arith, laws.add_known t.driver mac m, v.known m held);
      pending_distinct = v.pending_distinct;
      pending_apart = v.pending_apart;
      pending_known =
          λ m held. ground (arith, laws.add_known t.driver mac m, v.pending_known m held);
      checked_apart = v.checked_apart;
      cleared_apart = v.cleared_apart;
    })
  ]
