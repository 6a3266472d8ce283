-- ===== src/Transport/TableRuns.antt =====
-- include/esp_now_midi.h: the peer list stays in order, however the tasks interleave.
use esp_now_midi.Base.{ℕ, ◌≡◌, refl, Bool, true, false, if◌then◌else◌, List, [], ◌∷◌}
use esp_now_midi.Transport.Peers.{holds, mark_seen, note_delivery, copy_send_targets}
use esp_now_midi.Transport.Table.{
  EspNow, Table, offer_peer, end_add, drop_cleared, check_peer, drop_checked, take_leaving,
  empty_list, forget_driver, give_back, is_busy,
}
use esp_now_midi.Transport.Addresses.{macs-mark_seen, macs-note_delivery, macs-copy_send_targets}
use esp_now_midi.Transport.TableSteps.{
  IsEspNow, IsTable, IsTable-same, IsTable-offer_peer, IsTable-end_add, IsTable-drop_cleared,
}
use esp_now_midi.Transport.Removals.{
  IsTable-check_peer, IsTable-drop_checked, IsTable-take_leaving, IsTable-empty_list,
  IsTable-forget_driver, IsTable-give_back,
}

-- What the tasks do to the table: one critical section, or one call of the driver, at a time.
pub data Step : Type 0 where
  offers stores checks drops_checked takes drops_cleared gives_back targets : ℕ → Step
  empties forgets : Step
  sees : ℕ → ℕ → Step
  delivers : ℕ → Bool → ℕ → Step

module _ {D : Type 0} (esp : EspNow D) where
  -- A step that no task can be at leaves the table; so does the offer of an address that is busy.
  unfoldable pub step : Step → Table D → Table D
  unfolding offer_peer end_add drop_cleared check_peer drop_checked take_leaving empty_list
      forget_driver give_back is_busy
  step (offers mac) t = if is_busy t mac then t else (offer_peer esp t mac).0
  step (stores mac) t = if holds t.pending mac then (end_add esp t mac).0 else t
  step (drops_cleared mac) t = if holds t.cleared mac then drop_cleared esp t mac else t
  step (checks mac) t = (check_peer esp t mac).0
  step (drops_checked mac) t = if holds t.checked mac then (drop_checked esp t mac).0 else t
  step (takes mac) t = if holds t.leaving mac then take_leaving esp t mac else t
  step empties t = empty_list esp t
  step forgets t = forget_driver esp t
  step (gives_back mac) t = give_back esp t mac
  step (targets now) t = record t { peers = (copy_send_targets now t.peers).peers }
  step (sees mac now) t = record t { peers = mark_seen t.peers mac now }
  step (delivers mac ok now) t = record t { peers = note_delivery t.peers mac ok now }

  unfoldable pub run : List Step → Table D → Table D
  unfolding step
  run [] t = t
  run (s ∷ steps) t = run steps (step s t)

module _ {D : Type 0} (esp : EspNow D) (laws : IsEspNow esp) where
  IsTable-if :
      (b : Bool) (t u : Table D)
      → (b ≡ true → IsTable esp t)
      → (b ≡ false → IsTable esp u)
      → IsTable esp (if b then t else u)
  IsTable-if true t u taken left = taken refl
  IsTable-if false t u taken left = left refl

  pub step-IsTable : (s : Step) (t : Table D) → IsTable esp t → IsTable esp (step esp s t)
  unfolding step
  step-IsTable (offers mac) t v =
      IsTable-if (is_busy t mac) t _ (λ busy. v) (λ free. IsTable-offer_peer esp laws t mac free v)
  step-IsTable (stores mac) t v =
      IsTable-if (holds t.pending mac) _ t (λ at. IsTable-end_add esp laws t mac at v) (λ other. v)
  step-IsTable (drops_cleared mac) t v =
      IsTable-if (holds t.cleared mac) _ t (λ at. IsTable-drop_cleared esp laws t mac at v)
        (λ other. v)
  step-IsTable (checks mac) t v = IsTable-check_peer esp laws t mac v
  step-IsTable (drops_checked mac) t v =
      IsTable-if (holds t.checked mac) _ t (λ at. IsTable-drop_checked esp laws t mac at v)
        (λ other. v)
  step-IsTable (takes mac) t v =
      IsTable-if (holds t.leaving mac) _ t (λ at. IsTable-take_leaving esp laws t mac v)
        (λ other. v)
  step-IsTable empties t v = IsTable-empty_list esp laws t v
  step-IsTable forgets t v = IsTable-forget_driver esp laws t v
  step-IsTable (gives_back mac) t v = IsTable-give_back esp laws t mac v
  step-IsTable (targets now) t v = IsTable-same esp laws t _ (macs-copy_send_targets now t.peers) v
  step-IsTable (sees mac now) t v = IsTable-same esp laws t _ (macs-mark_seen t.peers mac now) v
  step-IsTable (delivers mac ok now) t v =
      IsTable-same esp laws t _ (macs-note_delivery t.peers mac ok now) v

  -- However the tasks interleave between the critical sections and the driver calls of addPeer,
  -- removePeer, clearPeers and a restart of ESP-NOW, the peer list has at most 20 addresses, each
  -- once, and the driver knows all of them but those that removePeer is taking out and those that a
  -- restart took from it and has not given back. The condition is that no address is offered to the
  -- driver by addPeer while it is on its way out, or while a restart has still to give it back; and
  -- the driver accepts unknown addresses only, and its deletions and failed calls touch no other.
  pub run-IsTable :
      (steps : List Step) (t : Table D) → IsTable esp t → IsTable esp (run esp steps t)
  unfolding run
  run-IsTable [] t v = v
  run-IsTable (s ∷ steps) t v = run-IsTable steps (step esp s t) (step-IsTable s t v)
