-- ===== src/Transport/Flight.antt =====
-- include/esp_now_midi.h: sends that wait for their confirmation, and the restart of a stuck driver.
use esp_now_midi.Base.{
  ℕ, ◌+◌, ◌-◌, Bool, true, false, not, ◌&&◌, ◌||◌, Option, none, some, List, [], ◌∷◌, ◌++◌, map,
  ltb, leb, ◌==◌, if◌then◌else◌, u32, sub32,
}

-- The results of the ESP-IDF functions that the code tells apart, and the others by a number
pub data EspErr : Type 0 where
  esp_ok esp_fail invalid_arg no_mem not_found : EspErr
  other_error : ℕ → EspErr

abbrev pub is_ok : EspErr → Bool
is_ok esp_ok = true
is_ok err = false

abbrev pub is_no_mem : EspErr → Bool
is_no_mem no_mem = true
is_no_mem err = false

abbrev pub max_in_flight : ℕ
max_in_flight = 1

abbrev pub stall_ms : ℕ
stall_ms = 1000

abbrev pub restart_backoff_ms : ℕ
restart_backoff_ms = 5000

-- `EspNowSendStats`
pub record EspNowSendStats : Type 0 where
  pub sent : ℕ
  pub failed : ℕ
  pub delivered : ℕ
  pub not_delivered : ℕ
  pub last_error : EspErr
  pub throttled : ℕ
  pub restarts : ℕ
  pub wifi_restarts : ℕ
  pub skipped : ℕ
  pub dropped : ℕ
  pub replaced : ℕ
  pub queue_peak : ℕ

-- The members that `_statsMux` guards
pub record Flight : Type 0 where
  pub stats : EspNowSendStats
  pub last_send_ms : ℕ
  pub has_sent : Bool
  pub in_flight : ℕ
  pub last_sent_packed : ℕ
  pub last_confirm_ms : ℕ
  pub last_restart_ms : ℕ
  pub refused_since_confirm : Bool
  pub confirmed_since_restart : Bool

abbrev pub no_stats : EspNowSendStats
no_stats = record {
  sent = 0;
  failed = 0;
  delivered = 0;
  not_delivered = 0;
  last_error = esp_ok;
  throttled = 0;
  restarts = 0;
  wifi_restarts = 0;
  skipped = 0;
  dropped = 0;
  replaced = 0;
  queue_peak = 0;
}

abbrev pub no_flight : Flight
no_flight = record {
  stats = no_stats;
  last_send_ms = 0;
  has_sent = false;
  in_flight = 0;
  last_sent_packed = 0;
  last_confirm_ms = 0;
  last_restart_ms = 0;
  refused_since_confirm = false;
  confirmed_since_restart = false;
}

-- `++` of a `uint32_t`
abbrev pub next : ℕ → ℕ
next n = u32 (n + 1)

-- `countSend`
unfoldable pub count_send : Flight → EspErr → ℕ → Flight
count_send f err now =
    if is_ok err
    then record f {
      stats = record (f.stats) { sent = next f.stats.sent };
      last_send_ms = now;
      has_sent = true;
    }
    else record f { stats = record (f.stats) { failed = next f.stats.failed; last_error = err } }

unfoldable pub in_flight_full : Flight → Bool
in_flight_full f = leb max_in_flight f.in_flight

-- The critical section of `sendOne` before `esp_now_send`: whether the packet goes to the driver.
unfoldable pub enter_send : Flight → ℕ → ℕ → Flight × Bool
enter_send f mac now =
    if leb max_in_flight f.in_flight
    then (
      record f {
        stats = record (f.stats) {
          throttled = next f.stats.throttled;
          failed = next f.stats.failed;
          last_error = no_mem;
        };
      },
      false,
    )
    else (
      record f {
        last_confirm_ms =
            if f.in_flight == 0 && not f.refused_since_confirm then now else f.last_confirm_ms;
        in_flight = f.in_flight + 1;
        last_sent_packed = mac;
      },
      true,
    )

-- `sendOne` after `esp_now_send`
unfoldable pub leave_send : Flight → EspErr → ℕ → Flight
unfolding count_send
leave_send f err now =
    let refused = record f {
      in_flight = if ltb 0 f.in_flight then f.in_flight - 1 else f.in_flight;
      refused_since_confirm = if is_no_mem err then true else f.refused_since_confirm;
    } in
    count_send (if is_ok err then f else refused) err now

-- A whole send, as `sendOne` does it when it does not wait: the packet's peer, the driver's answer,
-- and the times of the two critical sections.
pub record Attempt : Type 0 where
  pub mac : ℕ
  pub answer : EspErr
  pub entered_ms : ℕ
  pub answered_ms : ℕ

unfoldable pub send_one : Attempt → Flight → Flight
unfolding enter_send leave_send
send_one a f =
    let (f', goes) = enter_send f a.mac a.entered_ms in
    if goes then leave_send f' a.answer a.answered_ms else f'

-- `SendCallbackAdapter`: the members that `_statsMux` guards
unfoldable pub confirm_send : Flight → Bool → ℕ → Flight
confirm_send f success now = record f {
  stats =
      if success
      then record (f.stats) { delivered = next f.stats.delivered }
      else record (f.stats) { not_delivered = next f.stats.not_delivered };
  in_flight = if ltb 0 f.in_flight then f.in_flight - 1 else f.in_flight;
  last_confirm_ms = now;
  refused_since_confirm = false;
  confirmed_since_restart = true;
}

-- The end of `restartEspNow`
unfoldable pub restarted : Flight → Bool → ℕ → Flight
restarted f with_wifi now = record f {
  in_flight = 0;
  refused_since_confirm = false;
  last_confirm_ms = now;
  last_restart_ms = now;
  confirmed_since_restart = false;
  stats = record (f.stats) {
    restarts = next f.stats.restarts;
    wifi_restarts = if with_wifi then next f.stats.wifi_restarts else f.stats.wifi_restarts;
  };
}

-- `checkStall`: whether it restarts ESP-NOW, and then whether with Wi-Fi
unfoldable pub stall_restart : Flight → ℕ → Option Bool
stall_restart f now =
    let waiting = ltb 0 f.in_flight || f.refused_since_confirm in
    if not waiting || ltb (sub32 now f.last_confirm_ms) stall_ms
    then none
    else if ltb 0 f.stats.restarts && ltb (sub32 now f.last_restart_ms) restart_backoff_ms
    then none
    else some (ltb 0 f.stats.restarts && not f.confirmed_since_restart)

-- `checkStall` with the time that its restart ends
unfoldable pub check_stall : Flight → ℕ → ℕ → Flight
unfolding stall_restart restarted
check_stall f now later = elim (stall_restart f now) [
  | none ↦ f
  | some with_wifi ↦ restarted f with_wifi later
]

-- What the driver is asked for in a restart
pub data DriverCall : Type 0 where
  esp_now_deinit wifi_stop wifi_start esp_now_init set_channel register_callbacks : DriverCall
  set_power_save : Bool → DriverCall
  add_driver_peer : ℕ → DriverCall

unfoldable pub restart_calls : Bool → Bool → List ℕ → List DriverCall
restart_calls with_wifi reduce_power macs =
    (esp_now_deinit ∷ (if with_wifi then wifi_stop ∷ wifi_start ∷ [] else []))
    ++ (esp_now_init
        ∷ set_channel
        ∷ set_power_save reduce_power
        ∷ register_callbacks
        ∷ map add_driver_peer macs)
