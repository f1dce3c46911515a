-- ===== src/Bench/Places.antt =====
-- fsbench.cpp: what the places of the monitor and of RunBenchmark say, and a signal leaves.
use tablefs.Base.{ℕ, ◌≡◌, ◌≤◌, refl, Bool, true, false, if◌then◌else◌, arith}
use tablefs.Bench.Threads.{MonitorPhase, MainPhase, wake_monitor, wake_main}
use tablefs.Bench.Counts.{bit}

abbrev pub is_fresh_monitor : MonitorPhase → Bool
is_fresh_monitor MonitorPhase.monitor_fresh = true
is_fresh_monitor other = false

-- Before its loop.
abbrev pub is_kept : MonitorPhase → Bool
is_kept MonitorPhase.monitor_fresh = true
is_kept MonitorPhase.monitor_asleep = true
is_kept MonitorPhase.monitor_woken = true
is_kept other = false

-- Behind its loop.
abbrev pub is_over : MonitorPhase → Bool
is_over MonitorPhase.leaving = true
is_over (MonitorPhase.adding m) = true
is_over MonitorPhase.signalling = true
is_over MonitorPhase.monitor_ended = true
is_over other = false

abbrev pub has_added : MonitorPhase → Bool
has_added MonitorPhase.signalling = true
has_added MonitorPhase.monitor_ended = true
has_added other = false

-- The count that it has read, or else the one that is there.
abbrev pub read_done : ℕ → MonitorPhase → ℕ
read_done now (MonitorPhase.adding m) = m
read_done now other = now

abbrev pub has_started : MainPhase → Bool
has_started MainPhase.locking = false
has_started MainPhase.counting = false
has_started MainPhase.main_asleep = false
has_started other = true

abbrev pub is_returned : MainPhase → Bool
is_returned MainPhase.returned = true
is_returned other = false

pub bit-le : (b : Bool) → bit b ≤ 1
unfolding bit
bit-le b = ground arith

-- What a signal does not change.
pub monitor_still :
    {A : Type 0} (f : MonitorPhase → A)
    → ((m : MonitorPhase) → f (wake_monitor m) ≡ f m)
    → (b : Bool) (m : MonitorPhase) → f (if b then wake_monitor m else m) ≡ f m
monitor_still f same true m = same m
monitor_still f same false m = refl

pub main_still :
    (f : MainPhase → Bool)
    → ((m : MainPhase) → f (wake_main m) ≡ f m)
    → (b : Bool) (m : MainPhase) → f (if b then wake_main m else m) ≡ f m
main_still f same true m = same m
main_still f same false m = refl

pub is_fresh_monitor-wake :
    (m : MonitorPhase) → is_fresh_monitor (wake_monitor m) ≡ is_fresh_monitor m
unfolding wake_monitor
is_fresh_monitor-wake m = ground arith

pub is_kept-wake : (m : MonitorPhase) → is_kept (wake_monitor m) ≡ is_kept m
unfolding wake_monitor
is_kept-wake m = ground arith

pub is_over-wake : (m : MonitorPhase) → is_over (wake_monitor m) ≡ is_over m
unfolding wake_monitor
is_over-wake m = ground arith

pub has_added-wake : (m : MonitorPhase) → has_added (wake_monitor m) ≡ has_added m
unfolding wake_monitor
has_added-wake m = ground arith

pub read_done-wake : (k : ℕ) (m : MonitorPhase) → read_done k (wake_monitor m) ≡ read_done k m
unfolding wake_monitor
read_done-wake k m = ground arith

pub has_started-wake : (m : MainPhase) → has_started (wake_main m) ≡ has_started m
unfolding wake_main
has_started-wake m = ground arith

pub is_returned-wake : (m : MainPhase) → is_returned (wake_main m) ≡ is_returned m
unfolding wake_main
is_returned-wake m = ground arith

-- Only a monitor that has read the count and not written it has another one.
pub read_done-moved :
    (k j : ℕ) (m : MonitorPhase)
    → read_done k m ≡ k
    → (is_over m ≡ true → j ≡ k)
    → read_done j m ≡ j
read_done-moved k j m e h = ground (arith, e, h)
