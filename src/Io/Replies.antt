-- ===== src/Io/Replies.antt =====
-- include/enomik_io.h: every request is answered.
use esp_now_midi.Base.{
  ℕ, is_some, ◌≤◌, ◌≡◌, refl, sym, inl, inr, true, false, some, List, [], ◌∷◌, arith, Bool-cases,
  Option-cases, All,
}
use mathlib.Core.Path.{subst}
use esp_now_midi.Handler.Effects.{Effect, Callbacks, sent, call_add_peer}
use esp_now_midi.Handler.{handle_sys_ex}
use esp_now_midi.Handler.Calls.{length-handle_sys_ex}
use esp_now_midi.Io.State.{Floats, Readings}
use esp_now_midi.Io.Preferences.{Nvs}
use esp_now_midi.Io.Device.{Hooks, Io}
use esp_now_midi.Io.Answers.{handler_callbacks}
use esp_now_midi.Io.Commands.{perform, perform_all, on_sys_ex}
use esp_now_midi.Codec.{
  AddPeerResult, success, table_full, already_exists, failure, no_transport, get_command,
  get_payload,
}
use esp_now_midi.Codec.Command
use esp_now_midi.Codec.Decode.{decode_mac}
use esp_now_midi.Handler.{route_command, handle_add_peer, add_peer_by, answer_add_peer}
use esp_now_midi.Handler.Calls.{is_accepted, is_notification, adds_peer}
use esp_now_midi.Handler.Expected.{IsProper}
use esp_now_midi.Handler.Proper.{handle_sys_ex-AreProper}
use esp_now_midi.Handler.Effects.{send, send_error_response, send_add_peer_response}
use esp_now_midi.Io.Liveness.{answers, is_add_peer, Answered-after, Answered-single}

proper_plain :
    (cb : Callbacks) (bytes : List ℕ) (effect : Effect)
    → is_some cb.on_add_peer ≡ true
    → adds_peer cb bytes ≡ false
    → IsProper bytes effect
    → is_add_peer effect ≡ false
proper_plain cb bytes (call_add_peer mac) set other (asks, decoded) =
    absurd (ground (arith, set, other, asks.0, asks.1, decoded))
proper_plain cb bytes effect set other proper = refl

plain_effects :
    (cb : Callbacks) (bytes : List ℕ) (effects : List Effect)
    → is_some cb.on_add_peer ≡ true
    → adds_peer cb bytes ≡ false
    → All (IsProper bytes) effects
    → All (λ effect. is_add_peer effect ≡ false) effects
plain_effects cb bytes [] set other v = tt
plain_effects cb bytes (effect ∷ effects) set other v =
    (proper_plain cb bytes effect set other v.0, plain_effects cb bytes effects set other v.1)

-- A request to add a peer is passed on and answered by the handler itself.
handle_sys_ex-adds :
    (cb : Callbacks) (bytes : List ℕ) (add : List ℕ → AddPeerResult) (peer : List ℕ)
    → cb.on_add_peer ≡ some add
    → is_accepted bytes ≡ true
    → get_command bytes ≡ Command.add_peer
    → decode_mac (get_payload bytes) ≡ some peer
    → handle_sys_ex cb bytes ≡ call_add_peer peer ∷ answer_add_peer cb (add peer)
unfolding handle_sys_ex route_command handle_add_peer add_peer_by
handle_sys_ex-adds cb bytes add peer set accepted command decoded =
    ground (arith, set, accepted, command, decoded)

module _ {F S : Type 0} (floats : Floats F) (nvs : Nvs S) (firmware_id mac : List ℕ) (h : Hooks)
    (sends : h.on_sys_ex_send_request ≡ true) (r : Readings) (now : ℕ) where
  Answered-added :
      (peer : List ℕ) (result : AddPeerResult) (io : Io F S)
      → 1
        ≤ answers
            (perform_all floats nvs firmware_id mac h r now
              (call_add_peer peer ∷ answer_add_peer (handler_callbacks h) result)
              io).1
  unfolding perform_all perform answer_add_peer send_add_peer_response send_error_response send
      handler_callbacks
  Answered-added peer result io =
      Answered-after floats nvs firmware_id mac h sends r now
        (perform floats nvs firmware_id mac h r now (call_add_peer peer) io).1 _ (answered result)
    where
      single :
          (bytes : List ℕ)
          → 1 ≤ answers (perform_all floats nvs firmware_id mac h r now (sent bytes ∷ []) io).1
      single bytes =
          Answered-single floats nvs firmware_id mac h sends r now (sent bytes ∷ []) io refl
            (refl, tt)

      answered :
          (result : AddPeerResult)
          → 1
            ≤ answers
                (perform_all floats nvs firmware_id mac h r now
                  (answer_add_peer (handler_callbacks h) result)
                  io).1
      answered success = single _
      answered table_full = single _
      answered already_exists = single _
      answered failure = single _
      answered no_transport = single _

  -- Every SysEx message that arrives, also one that is malformed or unknown, is answered by at least one
  -- SysEx message, if the application has set the callback that sends them; only a notification of
  -- another device is left alone.
  pub on_sys_ex-answered :
      (bytes : List ℕ) (io : Io F S)
      → is_notification bytes ≡ false
      → 1 ≤ answers (on_sys_ex floats nvs firmware_id mac h r now bytes io).1
  unfolding on_sys_ex handler_callbacks
  on_sys_ex-answered bytes io other =
      let cb = handler_callbacks h in
      let heard = record io { raw_stream = record io.raw_stream { last_host_msg = now } } in
      elim (Bool-cases (adds_peer cb bytes)) [
        | inr plain ↦
            Answered-single floats nvs firmware_id mac h sends r now (handle_sys_ex cb bytes) heard
              (ground (arith, length-handle_sys_ex cb refl bytes, other, plain))
              (plain_effects cb bytes (handle_sys_ex cb bytes) refl plain
                (handle_sys_ex-AreProper cb bytes).each)
        | inl adds ↦ elim (Option-cases (decode_mac (get_payload bytes))) [
          | inl none_there ↦ absurd (ground (arith, adds, none_there))
          | inr (peer, decoded) ↦
              subst
                (λ effects.
                  1 ≤ answers (perform_all floats nvs firmware_id mac h r now effects heard).1)
                (sym (
                  handle_sys_ex-adds cb bytes _ peer refl (ground (arith, adds))
                    (ground (arith, adds)) decoded))
                (Answered-added peer _ heard)
        ]
      ]
