-- ===== src/Bench/Nearing.antt =====
-- fsbench.cpp: steps of the threads that bring RunBenchmark nearer to its end.
use tablefs.Base.{ℕ, ◌+◌, ◌≡◌, ◌≤◌, ◌<◌, refl, Bool, true, false, List, [], ◌∷◌, ◌++◌, leb, arith}
use tablefs.Bench.Threads.{
  Phase, MonitorPhase, MainPhase, System, wake, wake_monitor, wake_main, wake_if, await_start,
  monitor_await_start, has_mutex, worker_enters, worker_resumes, worker_ends, monitor_enters, Step,
}
use tablefs.Bench.Counts.{bit, count, is_finished, is_any}
use tablefs.Bench.Loads.{weight_of, weight_of-moved, weight_of-wake_if, find-count}
use tablefs.Bench.Coordination.{IsCoordinated}
use tablefs.Bench.Wakeups.{ends_quietly}
use tablefs.Bench.Awake.{sleeps_here}

-- How far a thread is from its end.
abbrev pub worker_left : Phase → ℕ
worker_left Phase.fresh = 40
worker_left Phase.asleep = 4
worker_left Phase.woken = 3
worker_left Phase.working = 2
worker_left Phase.finished = 0

abbrev monitor_left : MonitorPhase → ℕ
monitor_left MonitorPhase.monitor_fresh = 40
monitor_left MonitorPhase.monitor_asleep = 16
monitor_left MonitorPhase.monitor_woken = 15
monitor_left MonitorPhase.watching = 14
monitor_left MonitorPhase.leaving = 13
monitor_left (MonitorPhase.adding m) = 12
monitor_left MonitorPhase.signalling = 11
monitor_left MonitorPhase.monitor_ended = 0

abbrev main_left : MainPhase → ℕ
main_left MainPhase.locking = 8
main_left MainPhase.counting = 7
main_left MainPhase.main_asleep = 6
main_left MainPhase.relocking = 5
main_left MainPhase.testing = 4
main_left MainPhase.waiting = 3
main_left MainPhase.sleeping = 2
main_left MainPhase.returned = 0

abbrev pub steps_left : System → ℕ
steps_left s = weight_of worker_left s.workers + monitor_left s.monitor + main_left s.main

pub worker_left-wake : (x : Phase) → worker_left (wake x) ≤ worker_left x
unfolding wake
worker_left-wake x = ground arith

pub monitor_left-wake : (m : MonitorPhase) → monitor_left (wake_monitor m) ≤ monitor_left m
unfolding wake_monitor
monitor_left-wake m = ground arith

pub main_left-wake : (m : MainPhase) → main_left (wake_main m) ≤ main_left m + 3
unfolding wake_main
main_left-wake m = ground arith

abbrev pub Nearer : ℕ → System → Type 0
Nearer n s = (t : System) × Step false n s t × (steps_left t < steps_left s)

-- A worker that can go on.
abbrev pub is_ready : Phase → Bool
is_ready Phase.fresh = true
is_ready Phase.woken = true
is_ready Phase.working = true
is_ready other = false

pub enter_lower :
    {n : ℕ} {s : System} (before after : List Phase)
    → has_mutex s.main ≡ false
    → s.workers ≡ before ++ Phase.fresh ∷ after
    → Nearer n s
unfolding worker_enters await_start
enter_lower {s = s} before after free e =
    let ready = leb s.shared.total (s.shared.num_initialized + 1) in
    (
      worker_enters before after s,
      Step.enters before after free e,
      ground (
        arith,
        weight_of-moved worker_left worker_left-wake ready Phase.fresh (await_start s.shared.start)
            before after s.workers e,
        monitor_left-wake s.monitor,
        main_left-wake s.main,
      ),
    )

pub join_lower :
    {n : ℕ} {s : System}
    → has_mutex s.main ≡ false
    → s.monitor ≡ MonitorPhase.monitor_fresh
    → Nearer n s
unfolding monitor_enters monitor_await_start
join_lower {s = s} free e =
    let ready = leb s.shared.total (s.shared.num_initialized + 1) in
    (
      monitor_enters s,
      Step.joins free e,
      ground (
        arith,
        e,
        weight_of-wake_if worker_left worker_left-wake ready s.workers,
        main_left-wake s.main,
      ),
    )

-- A worker behind the start, where none sleeps.
pub worker_lower :
    {n : ℕ} {s : System}
    → IsCoordinated n s
    → s.shared.start ≡ true
    → has_mutex s.main ≡ false
    → 0 < count is_ready s.workers
    → Nearer n s
unfolding worker_resumes worker_ends await_start wake_if
worker_lower {n} {s} v on free some_ready =
    let (before, x, after, e, holds) = find-count is_ready s.workers some_ready in
    go x before after e holds
  where
    go :
        (x : Phase) (before after : List Phase)
        → s.workers ≡ before ++ x ∷ after
        → is_ready x ≡ true
        → Nearer n s
    go Phase.fresh before after e h = enter_lower before after free e
    go Phase.woken before after e h = (
      worker_resumes before after s,
      Step.resumes before after free e,
      ground (
        arith,
        on,
        weight_of-moved worker_left worker_left-wake false Phase.woken Phase.working before after
            s.workers e,
      ),
    )
    go Phase.working before after e h = (
      worker_ends before after s,
      Step.ends before after free e,
      ground (
        arith,
        ends_quietly before after v e,
        weight_of-moved worker_left worker_left-wake false Phase.working Phase.finished before after
            s.workers e,
      ),
    )
    go Phase.asleep before after e h = absurd (cc h)
    go Phase.finished before after e h = absurd (cc h)

pub phases_add :
    (xs : List Phase)
    → count is_any xs ≡ count is_ready xs + weight_of sleeps_here xs + count is_finished xs
unfolding count weight_of bit
phases_add [] = refl
phases_add (x ∷ xs) = ground (arith, phases_add xs)
