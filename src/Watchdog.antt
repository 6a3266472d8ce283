-- ===== src/Watchdog.antt =====
-- include/UsbStallWatchdog.h: the state of the watchdog over the USB host, and its small operations.
pub mod Tick
pub mod Backoff
pub mod Replug
pub mod Runs
pub mod Descriptor
mod Tests
use esp_now_midi.Base.{
  ℕ, zero, suc, ◌+◌, ◌-◌, ◌*◌, ◌/◌, ◌%◌, ◌^◌, ◌≤◌, ◌<◌, bit_or, bit_and, ◌≡◌, refl, sym, ap, ◌∙◌,
  ◌≢◌, ◌↔◌, ◌⊎◌, inl, inr, Bool, true, false, not, ◌&&◌, ◌||◌, Option, none, some, List, [], ◌∷◌,
  ◌++◌, map, arith, ltb, leb, ◌==◌, ◌!=◌, if◌then◌else◌, ==-eq, ==-ne, ==_iff, Bool-cases,
  Option-cases, length, get_or, take, drop, keep_if, All, length-append, length-map, length-take,
  length-drop, take_all, put, put_same, put_other, slot_injective, segment, length-segment,
  segment_congr, segment_shift, segment_snoc, segment_append, segment_extend, segment_remove,
  segment_list, get_or-take, get_or-drop, ring, ring-put, ring_list, ring_list-put, ring_list_step,
  ring_list_pop, ring_list-put_inside, ring_list-put_before, ring_next, u8, u16, u32, sub32, sub16,
  signed_ltb32, low_bits, shr,
}

-- `enum class UsbWatchdogMode`
pub data Mode : Type 0 where
  off observe recover : Mode

-- `enum class UsbWatchdogAction`
pub data Action : Type 0 where
  stay remote_wakeup detach attach : Action

-- `enum class Phase`
pub data Phase : Type 0 where
  usual detached reattached : Phase

-- `UsbWatchdogConfig`
pub record Config : Type 0 where
  pub stall_ms : ℕ
  pub wake_retry_ms : ℕ
  pub detach_ms : ℕ
  pub host_active_guard_ms : ℕ
  pub backoff_base_ms : ℕ
  pub backoff_max_ms : ℕ
  pub recovery_window_ms : ℕ
  pub recover_from_suspend : Bool

abbrev pub default_config : Config
default_config = record {
  stall_ms = 500;
  wake_retry_ms = 1000;
  detach_ms = 150;
  host_active_guard_ms = 1000;
  backoff_base_ms = 30000;
  backoff_max_ms = 600000;
  recovery_window_ms = 3000;
  recover_from_suspend = true;
}

-- `UsbWatchdogInputs`
pub record Inputs : Type 0 where
  pub now : ℕ
  pub mounted : Bool
  pub suspended : Bool
  pub pending : Bool
  pub tx_blocked : Bool
  pub wrote : Bool
  pub endpoint_known : Bool

-- `UsbHealthStats`
pub record HealthStats : Type 0 where
  pub suspends : ℕ
  pub longest_suspend_ms : ℕ
  pub wakeups_tried : ℕ
  pub wakeups_refused : ℕ
  pub stalls : ℕ
  pub longest_busy_ms : ℕ
  pub reattaches : ℕ
  pub recoveries : ℕ

-- The members of `UsbStallWatchdog`
pub record Watchdog : Type 0 where
  pub mode : Mode
  pub cfg : Config
  pub stats : HealthStats
  pub phase : Phase
  pub detached_at : ℕ
  pub reattached_at : ℕ
  pub host_rx_valid : Bool
  pub last_host_rx_ms : ℕ
  pub in_flight : Bool
  pub host_read_this_mount : Bool
  pub busy_valid : Bool
  pub busy_since : ℕ
  pub stall_counted : Bool
  pub suspend_valid : Bool
  pub suspend_since : ℕ
  pub wake_tried : Bool
  pub last_wake_at : ℕ
  pub wake_refused : Bool
  pub reattached_this_suspend : Bool
  pub attempts_without_delivery : ℕ
  pub gate_valid : Bool
  pub last_attempt_at : ℕ

abbrev pub initial : Watchdog
initial = record {
  mode = recover;
  cfg = default_config;
  stats = record {
    suspends = 0;
    longest_suspend_ms = 0;
    wakeups_tried = 0;
    wakeups_refused = 0;
    stalls = 0;
    longest_busy_ms = 0;
    reattaches = 0;
    recoveries = 0;
  };
  phase = usual;
  detached_at = 0;
  reattached_at = 0;
  host_rx_valid = false;
  last_host_rx_ms = 0;
  in_flight = false;
  host_read_this_mount = false;
  busy_valid = false;
  busy_since = 0;
  stall_counted = false;
  suspend_valid = false;
  suspend_since = 0;
  wake_tried = false;
  last_wake_at = 0;
  wake_refused = false;
  reattached_this_suspend = false;
  attempts_without_delivery = 0;
  gate_valid = false;
  last_attempt_at = 0;
}

abbrev pub is_off : Mode → Bool
is_off off = true
is_off observe = false
is_off recover = false

abbrev pub is_recover : Mode → Bool
is_recover off = false
is_recover observe = false
is_recover recover = true

abbrev pub phase_is_detached : Phase → Bool
phase_is_detached usual = false
phase_is_detached detached = true
phase_is_detached reattached = false

abbrev pub phase_is_reattached : Phase → Bool
phase_is_reattached usual = false
phase_is_reattached detached = false
phase_is_reattached reattached = true

-- `elapsed`
abbrev pub elapsed : ℕ → ℕ → ℕ
elapsed now since = sub32 now since

-- `maxU32`
abbrev pub max_u32 : ℕ → ℕ → ℕ
max_u32 a b = if ltb b a then a else b

-- `setMode`
unfoldable pub set_mode : Watchdog → Mode → Watchdog
set_mode w m = record w { mode = m }

-- `noteHostRx`
unfoldable pub note_host_rx : Watchdog → ℕ → Watchdog
note_host_rx w now = record w { last_host_rx_ms = now; host_rx_valid = true }

-- `noteWakeupResult`
unfoldable pub note_wakeup_result : Watchdog → Bool → Watchdog
note_wakeup_result w accepted = if accepted then w else record w {
  stats = record (w.stats) { wakeups_refused = u32 (w.stats.wakeups_refused + 1) };
  wake_refused = true;
}

-- `isRecovering`
unfoldable pub is_recovering : Watchdog → ℕ → Bool
is_recovering w now =
    phase_is_detached w.phase
    || phase_is_reattached w.phase && ltb (elapsed now w.reattached_at) w.cfg.recovery_window_ms

-- `isDetached`
unfoldable pub is_detached : Watchdog → Bool
is_detached w = phase_is_detached w.phase
