-- ===== src/Bench/Wakeups.antt =====
-- fsbench.cpp: the signals between RunBenchmark and its monitor, which signals without the mutex.
use tablefs.Base.{
  ℕ, ◌+◌, ◌≡◌, ◌≤◌, ◌<◌, refl, ap, ◌∙◌, sym, Bool, true, false, not, ◌||◌, List, ◌∷◌, ◌++◌, leb,
  arith, Bool-cases, inl, inr,
}
use tablefs.Bench.Threads.{
  Phase, MonitorPhase, MainPhase, System, run_benchmark, wake_monitor, wake_main, wake_if,
  monitor_await_start, has_mutex, worker_enters, worker_resumes, worker_ends, signal_all,
  monitor_enters, monitor_resumes, monitor_looks, monitor_reads, monitor_writes, monitor_signals,
  main_counts, main_tests, move_main, Step, Reach, begins, goes_on,
}
use tablefs.Bench.Counts.{
  bit, count, is_fresh, is_finished, is_any, count-++, count-le, count-moved, is_finished-wake,
}
use tablefs.Bench.Coordination.{IsCoordinated}
use tablefs.Bench.Places.{is_kept, is_fresh_monitor, has_started}
use tablefs.Bench.Barrier.{Reach-IsCoordinated}

abbrev pub is_ended : MonitorPhase → Bool
is_ended MonitorPhase.monitor_ended = true
is_ended other = false

-- RunBenchmark does not sleep in its last loop, or go to sleep, when the last signal of the monitor
-- has been given, and it is behind that loop only then.
abbrev pub in_order : MainPhase → MonitorPhase → Bool
in_order MainPhase.testing m = is_kept m || is_ended m
in_order MainPhase.waiting m = is_kept m
in_order MainPhase.sleeping m = not (is_ended m)
in_order MainPhase.relocking m = is_ended m
in_order MainPhase.returned m = is_ended m
in_order other m = true

unstarted-in_order :
    (main : MainPhase) (monitor : MonitorPhase)
    → has_started main ≡ false
    → in_order main monitor ≡ true
unstarted-in_order main monitor h = ground (arith, h)

-- Where a thread has not entered, the start is yet to come.
pub still_waits :
    {n : ℕ} {s : System}
    → IsCoordinated n s
    → 0 < count is_fresh s.workers + bit (is_fresh_monitor s.monitor)
    → s.shared.start ≡ false
still_waits v some_fresh = ground (arith, v.ready, v.inits, some_fresh)

pub has-count :
    (p : Phase → Bool) (x : Phase) (before after xs : List Phase)
    → xs ≡ before ++ x ∷ after
    → bit (p x) ≤ count p xs
unfolding count
has-count p x before after xs e = omega (arith, ap (count p) e, count-++ p before (x ∷ after))

-- The end of a worker wakes no other thread.
pub ends_quietly :
    {n : ℕ} {s : System} (before after : List Phase)
    → IsCoordinated n s
    → s.workers ≡ before ++ Phase.working ∷ after
    → leb s.shared.total (s.shared.num_done + 1) ≡ false
unfolding bit
ends_quietly {n} {s} before after v e =
    let any =
      count-moved is_any (λ z. refl) false Phase.working Phase.finished before after s.workers e in
    let finished =
      count-moved is_finished is_finished-wake false Phase.working Phase.finished before after
        s.workers e in
    let few = count-le is_finished (wake_if false before ++ Phase.finished ∷ wake_if false after) in
    let below : count is_finished s.workers < n = omega (arith, any, finished, few, v.sized) in
    ground (arith, below, v.over, v.dones, v.total_is)

Step-in_order :
    {n : ℕ} {s t : System}
    → IsCoordinated n s
    → IsCoordinated n t
    → Step false n s t
    → in_order s.main s.monitor ≡ true
    → in_order t.main t.monitor ≡ true
unfolding worker_enters worker_resumes worker_ends bit monitor_enters monitor_await_start
    monitor_resumes monitor_looks monitor_reads monitor_writes monitor_signals signal_all
    main_counts main_tests move_main wake_main wake_monitor has_mutex
Step-in_order {s = s} {t = t} v w (Step.enters before after free e) h =
    unstarted-in_order t.main t.monitor (
      sym w.started
      ∙ still_waits v (ground (arith, has-count is_fresh Phase.fresh before after s.workers e)))
Step-in_order v w (Step.resumes before after free e) h = h
Step-in_order v w (Step.ends before after free e) h = rw (ends_quietly before after v e) h
Step-in_order v w (Step.stirs before after loose e) h = absurd (cc loose)
Step-in_order {s = s} {t = t} v w (Step.joins free e) h =
    unstarted-in_order t.main t.monitor (sym w.started ∙ still_waits v (ground (arith, e)))
Step-in_order v w (Step.rejoins free e) h = ground (arith, free, e, h)
Step-in_order v w (Step.monitor_stirs loose) h = absurd (cc loose)
Step-in_order v w (Step.looks e) h = ground (arith, e, h)
Step-in_order v w (Step.reads e) h = ground (arith, e, h)
Step-in_order v w (Step.writes done e) h = ground (arith, e, h)
Step-in_order v w (Step.signals e) h = ground (arith, e, h)
Step-in_order v w (Step.locks e) h = refl
Step-in_order {n = n} {s = s} v w (Step.counts e) h =
    elim (Bool-cases (leb s.shared.num_initialized n)) [
      | inl some_missing ↦ ground (arith, some_missing)
      | inr all ↦ ground (arith, all, v.monitor_kept, v.started, e)
    ]
Step-in_order {n = n} {s = s} v w (Step.tests e) h = elim (Bool-cases (leb s.shared.num_done n)) [
  | inl more ↦ ground (arith, more, v.dones, v.over, e, h)
  | inr all ↦ ground (arith, all, v.dones, count-le is_finished s.workers, v.sized, e, h)
]
Step-in_order v w (Step.sleeps e) h = ground (arith, e, h)
Step-in_order v w (Step.relocks e) h = ground (arith, e, h)
Step-in_order v w (Step.main_stirs loose) h = absurd (cc loose)

pub Reach-in_order : {n : ℕ} {s : System} → Reach false n s → in_order s.main s.monitor ≡ true
unfolding run_benchmark
Reach-in_order begins = refl
Reach-in_order (goes_on r step) =
    Step-in_order (Reach-IsCoordinated r) (Reach-IsCoordinated (goes_on r step)) step
      (Reach-in_order r)
