-- ===== src/UsbPacket/Waiting.antt =====
-- include/UsbMidiPacket.h: the SysEx writer that waits, and its time budget.
use esp_now_midi.Base.{
  ℕ, zero, suc, ◌+◌, ◌≡◌, refl, sym, ap, ◌∙◌, inl, inr, Bool, true, false, not, ◌&&◌, ◌||◌, Option,
  none, some, List, arith, ltb, leb, if◌then◌else◌, Bool-cases, length, u16, sub32,
}
use esp_now_midi.UsbPacket.{UsbPacket, is_whole_sysex, packet_at, write_from, write_usb_midi_sys_ex}

-- `end`: a packet with the last byte of a SysEx message alone
abbrev pub end_packet : UsbPacket
end_packet = record { code = 0x05; byte1 = 0xf7; byte2 = 0; byte3 = 0 }

-- `write` and `wait` are the caller's, and `S` is what they change. The waits of one packet have
-- `waits` units of fuel; `none` when they run out.
module _ {ℓ} {S : Type ℓ} (write : UsbPacket → S → S × Bool) (wait : Bool → S → S × Bool) where
  -- `while (!write(packet)) { if (!wait(false)) ... }`: false when the wait gives up.
  unfoldable pub await_packet : UsbPacket → ℕ → S → Option (S × Bool)
  await_packet p zero s = none
  await_packet p (suc waits) s =
      let (s1, written) = write p s in
      let (s2, again) = wait false s1 in
      let rest = await_packet p waits s2 in
      if written then some (s1, true) else if again then rest else some (s2, false)

  -- `while (!write(end) && wait(true)) {}`
  unfoldable pub await_end : ℕ → S → Option S
  await_end zero s = none
  await_end (suc waits) s =
      let (s1, written) = write end_packet s in
      let (s2, again) = wait true s1 in
      let rest = await_end waits s2 in if written then some s1 else if again then rest else some s2

  -- After a wait that gave up: a message that was begun is ended.
  unfoldable pub give_up : ℕ → ℕ → S → Option (S × Bool)
  give_up waits i s =
      if ltb 0 i
      then elim (await_end waits s) [ none ↦ none | some s' ↦ some (s', false) ]
      else some (s, false)

  -- The loop of `writeUsbMidiSysExWaiting`
  unfoldable pub write_waiting_from : ℕ → List ℕ → ℕ → ℕ → S → Option (S × Bool)
  write_waiting_from waits message zero i s = none
  write_waiting_from waits message (suc fuel) i s =
      if leb (length message) i
      then some (s, true)
      else elim (await_packet (packet_at message i) waits s) [
        | none ↦ none
        | some (s', true) ↦ write_waiting_from waits message fuel (u16 (i + 3)) s'
        | some (s', false) ↦ give_up waits i s'
      ]

  -- `writeUsbMidiSysExWaiting`
  unfoldable pub write_usb_midi_sys_ex_waiting : ℕ → List ℕ → S → Option (S × Bool)
  write_usb_midi_sys_ex_waiting waits message s =
      if is_whole_sysex message
      then write_waiting_from waits message (suc (length message)) 0 s
      else some (s, false)

-- `UsbSysExPacer`
abbrev pub budget_ms : ℕ
budget_ms = 20

abbrev pub end_extra_ms : ℕ
end_extra_ms = 10

abbrev pub backoff_ms : ℕ
backoff_ms = 500

pub record UsbSysExPacer : Type 0 where
  pub stalled : Bool
  pub stalled_at : ℕ

-- `ready`, `now` and `sleep` are the caller's too.
module _ {ℓ} {S : Type ℓ} (write : UsbPacket → S → S × Bool) (ready : S → Bool) (now : S → ℕ)
    (sleep : S → S) where
  -- The function that `write` waits with
  unfoldable pub pacer_wait : Bool → ℕ → Bool → S → S × Bool
  pacer_wait fail_fast start ending s =
      let over = leb (budget_ms + (if ending then end_extra_ms else 0)) (sub32 (now s) start) in
      if fail_fast || not (ready s)
      then (s, false)
      else if over
      then (s, false)
      else (sleep s, true)

  -- The end of `write`
  abbrev pub note_result : UsbSysExPacer → Option (S × Bool) → Option (UsbSysExPacer × S × Bool)
  note_result pacer none = none
  note_result pacer (some (s, true)) = some (record pacer { stalled = false }, s, true)
  note_result pacer (some (s, false)) =
      some (record { stalled = true; stalled_at = now s }, s, false)

  -- `write`
  unfoldable pub pacer_write : ℕ → UsbSysExPacer → List ℕ → S → Option (UsbSysExPacer × S × Bool)
  pacer_write waits pacer message s =
      let start = now s in
      let fail_fast = pacer.stalled && ltb (sub32 start pacer.stalled_at) backoff_ms in
      note_result pacer
        (write_usb_midi_sys_ex_waiting write (pacer_wait fail_fast start) waits message s)

module _ {ℓ} {S : Type ℓ} (write : UsbPacket → S → S × Bool) (wait : Bool → S → S × Bool) where
  await_packet-written :
      (p : UsbPacket) (waits : ℕ) (s : S)
      → (write p s).1 ≡ true
      → await_packet write wait p (suc waits) s ≡ some ((write p s).0, true)
  unfolding await_packet
  await_packet-written p waits s h = rw (h) refl

  waiting_done :
      (waits : ℕ) (message : List ℕ) (fuel i : ℕ) (s : S)
      → leb (length message) i ≡ true
      → write_waiting_from write wait (suc waits) message (suc fuel) i s ≡ some (s, true)
  unfolding write_waiting_from
  waiting_done waits message fuel i s done = rw (done) refl

  plain_done :
      (message : List ℕ) (fuel i : ℕ) (s : S)
      → leb (length message) i ≡ true
      → write_from write message (suc fuel) i s ≡ some (s, true)
  unfolding write_from
  plain_done message fuel i s done = rw (done) refl

  step_written :
      (waits : ℕ) (message : List ℕ) (fuel i : ℕ) (s : S)
      → leb (length message) i ≡ false
      → (write (packet_at message i) s).1 ≡ true
      → write_waiting_from write wait (suc waits) message (suc fuel) i s
        ≡ write_waiting_from write wait
            (suc waits)
            message
            fuel
            (u16 (i + 3))
            (write (packet_at message i) s).0
  unfolding write_waiting_from
  step_written waits message fuel i s more h =
      rw (more, await_packet-written (packet_at message i) waits s h) refl

  plain_written :
      (message : List ℕ) (fuel i : ℕ) (s s' : S)
      → leb (length message) i ≡ false
      → write_from write message (suc fuel) i s ≡ some (s', true)
      → ((write (packet_at message i) s).1 ≡ true)
        × (write_from write message fuel (u16 (i + 3)) (write (packet_at message i) s).0
            ≡ some (s', true))
  unfolding write_from
  plain_written message fuel i s s' more h = ground (arith)

  write_waiting_from-plain :
      (waits : ℕ) (message : List ℕ) (fuel i : ℕ) (s s' : S)
      → write_from write message fuel i s ≡ some (s', true)
      → write_waiting_from write wait (suc waits) message fuel i s ≡ some (s', true)
  unfolding write_from write_waiting_from
  write_waiting_from-plain waits message zero i s s' h = ground arith
  write_waiting_from-plain waits message (suc fuel) i s s' h =
      elim (Bool-cases (leb (length message) i)) [
        | inl done ↦
            waiting_done waits message fuel i s done ∙ sym (plain_done message fuel i s done) ∙ h
        | inr more ↦
            (let written : ((write (packet_at message i) s).1 ≡ true)
                  × (write_from write message fuel (u16 (i + 3)) (write (packet_at message i) s).0
                      ≡ some (s', true)) =
                plain_written message fuel i s s' more h in
              step_written waits message fuel i s more written.0
              ∙ write_waiting_from-plain waits message fuel (u16 (i + 3))
                  (write (packet_at message i) s).0 s' written.1)
      ]

  waiting-plain :
      (waits : ℕ) (message : List ℕ) (s s' : S)
      → write_usb_midi_sys_ex write message s ≡ some (s', true)
      → write_usb_midi_sys_ex_waiting write wait (suc waits) message s ≡ some (s', true)
  unfolding write_usb_midi_sys_ex write_usb_midi_sys_ex_waiting
  waiting-plain waits message s s' h =
      ground (arith, write_waiting_from-plain waits message (suc (length message)) 0 s s')

-- When the writer that does not wait gets a whole message through, the pacer does so too with the
-- same writes, whatever it may wait for, even with one unit of fuel; it then counts as not stalled.
pub pacer_write-plain {ℓ} :
    {S : Type ℓ} (write : UsbPacket → S → S × Bool) (ready : S → Bool) (now : S → ℕ) (sleep : S → S)
    (waits : ℕ) (pacer : UsbSysExPacer) (message : List ℕ) (s s' : S)
    → write_usb_midi_sys_ex write message s ≡ some (s', true)
    → pacer_write write ready now sleep (suc waits) pacer message s
      ≡ some (record pacer { stalled = false }, s', true)
unfolding pacer_write
pacer_write-plain write ready now sleep waits pacer message s s' h =
    let start = now s in
    let fail_fast = pacer.stalled && ltb (sub32 start pacer.stalled_at) backoff_ms in
    ap (note_result write ready now sleep pacer)
      (waiting-plain write (pacer_wait write ready now sleep fail_fast start) waits message s s' h)
