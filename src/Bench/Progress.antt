-- ===== src/Bench/Progress.antt =====
-- fsbench.cpp: RunBenchmark and its threads come to an end.
use tablefs.Base.{
  ℕ, ◌≡◌, ◌≤◌, refl, ap, ◌∙◌, true, false, ◌∷◌, ◌++◌, ltb, arith, Bool-cases, inl, inr, zero, suc,
  ◌≢◌,
}
use tablefs.Bench.Threads.{
  MonitorPhase, MainPhase, System, monitor_await_start, has_mutex, signal_all, monitor_resumes,
  monitor_looks, monitor_reads, monitor_writes, monitor_signals, main_counts, main_tests, move_main,
  Step, Reach, goes_on, Run,
}
use tablefs.Bench.Counts.{bit, count, is_fresh, is_finished}
use tablefs.Bench.Loads.{weight_of-map-wake, find-count}
use tablefs.Bench.Coordination.{IsCoordinated}
use tablefs.Bench.Places.{is_fresh_monitor, is_returned}
use tablefs.Bench.Barrier.{Reach-IsCoordinated, returned_after_all}
use tablefs.Bench.Wakeups.{in_order, Reach-in_order}
use tablefs.Bench.Awake.{IsAwake, Reach-IsAwake}
use tablefs.Bench.Nearing.{
  worker_left, steps_left, worker_left-wake, monitor_left-wake, main_left-wake, Nearer, is_ready,
  enter_lower, join_lower, worker_lower, phases_add,
}

-- The monitor behind the start, when the workers have ended.
monitor_lower :
    {n : ℕ} {s : System}
    → IsCoordinated n s
    → IsAwake n s
    → s.shared.start ≡ true
    → has_mutex s.main ≡ false
    → count is_finished s.workers ≡ n
    → s.monitor ≢ MonitorPhase.monitor_ended
    → Nearer n s
unfolding monitor_resumes monitor_await_start monitor_looks monitor_reads monitor_writes
    monitor_signals signal_all bit
monitor_lower {n} {s} v a on free all unended = go s.monitor refl
  where
    go : (m : MonitorPhase) → s.monitor ≡ m → Nearer n s
    go MonitorPhase.monitor_fresh e = absurd (ground (arith, e, v.inits, v.ready on))
    go MonitorPhase.monitor_asleep e = absurd (ground (arith, e, a.monitor_awake on))
    go MonitorPhase.monitor_woken e =
        (monitor_resumes s, Step.rejoins free e, ground (arith, e, on))
    go MonitorPhase.watching e =
        (monitor_looks s, Step.looks e, ground (arith, e, all, v.dones, v.total_is))
    go MonitorPhase.leaving e = (monitor_reads s, Step.reads e, ground (arith, e))
    go (MonitorPhase.adding m) e = (monitor_writes m s, Step.writes m e, ground (arith, e))
    go MonitorPhase.signalling e = (
      monitor_signals s,
      Step.signals e,
      ground (
        arith,
        e,
        weight_of-map-wake worker_left worker_left-wake s.workers,
        main_left-wake s.main,
      ),
    )
    go MonitorPhase.monitor_ended e = absurd (unended e)

-- RunBenchmark waits for the threads to enter, and one has not.
entry_lower :
    {n : ℕ} {s : System}
    → IsCoordinated n s
    → IsAwake n s
    → s.main ≡ MainPhase.main_asleep
    → Nearer n s
unfolding has_mutex bit
entry_lower {n} {s} v a e =
    let free : has_mutex s.main ≡ false = ground (arith, e) in
    elim (Bool-cases (is_fresh_monitor s.monitor)) [
      | inl last ↦ join_lower free (ground (arith, last))
      | inr entered ↦
          let (before, x, after, there, holds) =
            find-count is_fresh s.workers (ground (arith, entered, v.inits, a.counted, e)) in
          enter_lower before after free
            (there ∙ ap (λ y. before ++ y ∷ after) (ground (arith, holds)))
    ]

lower_step :
    {n : ℕ} {s : System}
    → IsCoordinated n s
    → IsAwake n s
    → in_order s.main s.monitor ≡ true
    → s.main ≢ MainPhase.returned
    → Nearer n s
unfolding main_counts main_tests move_main signal_all has_mutex
lower_step {n} {s} v a o unreturned = go s.main refl
  where
    go : (m : MainPhase) → s.main ≡ m → Nearer n s
    go MainPhase.locking e = (move_main MainPhase.counting s, Step.locks e, ground (arith, e))
    go MainPhase.counting e = (
      main_counts n s,
      Step.counts e,
      ground (
        arith,
        e,
        weight_of-map-wake worker_left worker_left-wake s.workers,
        monitor_left-wake s.monitor,
      ),
    )
    go MainPhase.main_asleep e = entry_lower v a e
    go MainPhase.testing e = (main_tests n s, Step.tests e, ground (arith, e))
    go MainPhase.waiting e = (move_main MainPhase.sleeping s, Step.sleeps e, ground (arith, e))
    go MainPhase.relocking e = (move_main MainPhase.testing s, Step.relocks e, ground (arith, e))
    go MainPhase.sleeping e =
        let on : s.shared.start ≡ true = ground (arith, v.started, e) in
        let free : has_mutex s.main ≡ false = ground (arith, e) in
        elim (Bool-cases (ltb 0 (count is_ready s.workers))) [
          | inl some_ready ↦ worker_lower v on free (ground (arith, some_ready))
          | inr none_ready ↦
              monitor_lower v a on free
                (ground (arith, none_ready, phases_add s.workers, v.sized, a.awake on))
                (λ q. absurd (ground (arith, q, e, o)))
        ]
    go MainPhase.returned e = absurd (unreturned e)

ends_within :
    (fuel : ℕ) {n : ℕ} {s : System}
    → Reach false n s
    → steps_left s ≤ fuel
    → (t : System) × Run false n s t × Reach false n t × (t.main ≡ MainPhase.returned)
ends_within zero {n} {s} r few = (s, Run.stays, r, ground (arith, few))
ends_within (suc k) {n} {s} r few = elim (Bool-cases (is_returned s.main)) [
  | inl over ↦ (s, Run.stays, r, ground (arith, over))
  | inr going ↦
      let (t, step, less) =
        lower_step (Reach-IsCoordinated r) (Reach-IsAwake r) (Reach-in_order r)
          (λ q. absurd (ground (arith, q, going))) in
      let (u, run, there, back) = ends_within k (goes_on r step) (omega (arith, few, less)) in
      (u, Run.then step run, there, back)
]

-- No deadlock and no lost signal, where Wait returns only after a signal: from each state that n
-- workers and the monitor can reach, steps lead to the return of RunBenchmark, with the method run
-- by every worker and the monitor at its end.
pub can_return :
    {n : ℕ} {s : System}
    → Reach false n s
    → (t : System) × Run false n s t
      × (t.main ≡ MainPhase.returned)
      × (count is_finished t.workers ≡ n)
      × (t.monitor ≡ MonitorPhase.monitor_ended)
can_return {s = s} r =
    let (t, run, there, back) = ends_within (steps_left s) r (omega arith) in
    (t, run, back, (returned_after_all there back).0, ground (arith, Reach-in_order there, back))
