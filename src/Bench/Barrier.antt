-- ===== src/Bench/Barrier.antt =====
-- fsbench.cpp: the start and the end that the threads of RunBenchmark have in common.
use tablefs.Base.{
  ℕ, ◌+◌, ◌-◌, ◌≡◌, ◌<◌, refl, ◌∙◌, sym, ap, Bool, true, false, if◌then◌else◌, ltb, leb, arith,
  Bool-cases, inl, inr,
}
use tablefs.Bench.Threads.{
  Phase, MonitorPhase, MainPhase, System, wake_monitor, wake_main, wake_if, await_start,
  monitor_await_start, worker_enters, worker_resumes, worker_ends, signal_all, monitor_enters,
  monitor_resumes, monitor_looks, monitor_reads, monitor_writes, monitor_signals, main_counts,
  main_tests, move_main, Step, Reach, begins, goes_on,
}
use tablefs.Bench.Counts.{bit, count, is_fresh, is_busy, is_finished, is_any, count-le}
use tablefs.Bench.Coordination.{
  IsCoordinated, run_benchmark-IsCoordinated, worker-IsCoordinated, others-IsCoordinated,
  main-IsCoordinated, monitor-IsCoordinated,
}
use tablefs.Bench.Places.{
  is_fresh_monitor, has_added, has_started, is_returned, bit-le, main_still, is_fresh_monitor-wake,
  is_kept-wake, is_over-wake, has_added-wake, read_done-wake, has_started-wake, is_returned-wake,
}

-- Every step keeps the counts.
Step-IsCoordinated :
    {spurious : Bool} {n : ℕ} {s t : System}
    → Step spurious n s t
    → IsCoordinated n s
    → IsCoordinated n t
unfolding worker_enters worker_resumes worker_ends await_start wake_if bit monitor_enters
    monitor_await_start monitor_resumes monitor_looks monitor_reads monitor_writes monitor_signals
    signal_all main_counts main_tests move_main
Step-IsCoordinated {s = s} (Step.enters before after free e) v =
    let ni = s.shared.num_initialized + 1 in
    worker-IsCoordinated s (leb s.shared.total ni) Phase.fresh (await_start s.shared.start) before
      after 1 0 ni s.shared.num_done refl (omega arith) v e (ground arith) (ground arith)
      (λ h. ground (arith, h))
Step-IsCoordinated {s = s} (Step.resumes before after free e) v =
    worker-IsCoordinated s false Phase.woken (await_start s.shared.start) before after 0 0
      s.shared.num_initialized s.shared.num_done (omega arith) (omega arith) v e (ground arith)
      (ground arith) (λ h. ground (arith, h))
Step-IsCoordinated {s = s} (Step.ends before after free e) v =
    let nd = s.shared.num_done + 1 in
    worker-IsCoordinated s (leb s.shared.total nd) Phase.working Phase.finished before after 0 1
      s.shared.num_initialized nd (omega arith) refl v e refl refl (λ h. omega arith)
Step-IsCoordinated {s = s} (Step.stirs before after loose e) v =
    worker-IsCoordinated s false Phase.asleep Phase.woken before after 0 0 s.shared.num_initialized
      s.shared.num_done (omega arith) (omega arith) v e refl refl (λ h. omega arith)
Step-IsCoordinated {n = n} {s = s} (Step.joins free e) v =
    let ni = s.shared.num_initialized + 1 in
    let b = leb s.shared.total ni in
    others-IsCoordinated s b (record (s.shared) { num_initialized = ni })
      (monitor_await_start s.shared.start) (if b then wake_main s.main else s.main) v v.total_is
      (ground (arith, e)) (ground (arith, e))
      (v.started ∙ sym (main_still has_started has_started-wake b s.main))
      (λ h. absurd (ground (arith, e, v.inits, v.ready h))) (λ h. h) (λ h. ground (arith, h))
      (λ h. absurd (ground (arith, h))) (ground (arith, e))
      (λ h. v.back (sym (main_still is_returned is_returned-wake b s.main) ∙ h))
Step-IsCoordinated {s = s} (Step.rejoins free e) v =
    others-IsCoordinated s false s.shared (monitor_await_start s.shared.start) s.main v v.total_is
      (ground (arith, e)) (ground (arith, e)) v.started v.ready (λ h. h) (λ h. ground (arith, h))
      (λ h. absurd (ground (arith, h))) (ground (arith, e)) v.back
Step-IsCoordinated {s = s} (Step.monitor_stirs loose) v =
    monitor-IsCoordinated s s.shared.num_done (wake_monitor s.monitor) v
      (is_fresh_monitor-wake s.monitor)
      (ap (λ x. s.shared.num_done + bit x) (sym (has_added-wake s.monitor)))
      (is_kept-wake s.monitor) (λ h. v.over (sym (is_over-wake s.monitor) ∙ h))
      (read_done-wake s.shared.num_done s.monitor ∙ v.loaded) v.back
Step-IsCoordinated {s = s} (Step.looks e) v =
    elim (Bool-cases (ltb s.shared.num_done (s.shared.total - 1))) [
      | inl below ↦ rw below (
          monitor-IsCoordinated s s.shared.num_done MonitorPhase.watching v (ground (arith, e))
            (ground (arith, e)) (ground (arith, e)) (λ h. absurd (cc h)) refl v.back)
      | inr all ↦ rw all (
          monitor-IsCoordinated s s.shared.num_done MonitorPhase.leaving v (ground (arith, e))
            (ground (arith, e)) (ground (arith, e))
            (λ h.
              ground (arith, e, all, v.total_is, v.dones, count-le is_finished s.workers, v.sized))
            refl v.back)
    ]
Step-IsCoordinated {s = s} (Step.reads e) v =
    monitor-IsCoordinated s s.shared.num_done (MonitorPhase.adding s.shared.num_done) v
      (ground (arith, e)) (ground (arith, e)) (ground (arith, e)) (λ h. v.over (ground (arith, e)))
      refl v.back
Step-IsCoordinated {s = s} (Step.writes done e) v =
    let same : done ≡ s.shared.num_done = ground (arith, e, v.loaded) in
    monitor-IsCoordinated s (done + 1) MonitorPhase.signalling v (ground (arith, e))
      (ground (arith, e, same)) (ground (arith, e)) (λ h. v.over (ground (arith, e))) refl
      (λ h. absurd (ground (arith, v.back h, v.dones, e, count-le is_finished s.workers, v.sized)))
Step-IsCoordinated {s = s} (Step.signals e) v =
    others-IsCoordinated s true s.shared MonitorPhase.monitor_ended (wake_main s.main) v v.total_is
      (ground (arith, e)) (ground (arith, e)) (v.started ∙ sym (has_started-wake s.main)) v.ready
      (λ h. h) (λ h. absurd (ground (arith, e, v.monitor_kept h))) (λ h. v.over (ground (arith, e)))
      refl (λ h. v.back (sym (is_returned-wake s.main) ∙ h))
Step-IsCoordinated {s = s} (Step.locks e) v =
    main-IsCoordinated s MainPhase.counting v (ground (arith, e)) (λ h. absurd (cc h))
Step-IsCoordinated {n = n} {s = s} (Step.counts e) v =
    elim (Bool-cases (leb s.shared.num_initialized n)) [
      | inl some_missing ↦
          rw some_missing
            (main-IsCoordinated s MainPhase.main_asleep v (ground (arith, e)) (λ h. absurd (cc h)))
      | inr all ↦ rw all (
          others-IsCoordinated s true (record (s.shared) { start = true }) (wake_monitor s.monitor)
            MainPhase.testing v v.total_is
            (ap (λ x. s.shared.num_initialized + bit x) (is_fresh_monitor-wake s.monitor))
            (ap (λ x. s.shared.num_done + bit x) (sym (has_added-wake s.monitor))) refl
            (λ h. ground (arith, all, v.inits)) (λ h. absurd (cc h)) (λ h. absurd (cc h))
            (λ h. v.over (sym (is_over-wake s.monitor) ∙ h))
            (read_done-wake s.shared.num_done s.monitor ∙ v.loaded) (λ h. absurd (cc h)))
    ]
Step-IsCoordinated {n = n} {s = s} (Step.tests e) v =
    main-IsCoordinated s (if leb s.shared.num_done n then MainPhase.waiting else MainPhase.returned)
      v (ground (arith, e))
      (λ h.
        ground (
          arith,
          h,
          v.dones,
          bit-le (has_added s.monitor),
          count-le is_finished s.workers,
          v.sized,
        ))
Step-IsCoordinated {s = s} (Step.sleeps e) v =
    main-IsCoordinated s MainPhase.sleeping v (ground (arith, e)) (λ h. absurd (cc h))
Step-IsCoordinated {s = s} (Step.relocks e) v =
    main-IsCoordinated s MainPhase.testing v (ground (arith, e)) (λ h. absurd (cc h))
Step-IsCoordinated {s = s} (Step.main_stirs loose) v =
    main-IsCoordinated s (wake_main s.main) v (has_started-wake s.main)
      (λ h. v.back (sym (is_returned-wake s.main) ∙ h))

pub Reach-IsCoordinated :
    {spurious : Bool} {n : ℕ} {s : System} → Reach spurious n s → IsCoordinated n s
Reach-IsCoordinated {n = n} begins = run_benchmark-IsCoordinated n
Reach-IsCoordinated (goes_on r step) = Step-IsCoordinated step (Reach-IsCoordinated r)

-- The barrier at the start, with or without spurious wakeups: while a worker runs the method or has
-- run it, all the threads have entered, which num_initialized counts, and start is set.
pub worker_after_all :
    {spurious : Bool} {n : ℕ} {s : System}
    → Reach spurious n s
    → 0 < count is_busy s.workers
    → (count is_fresh s.workers ≡ 0)
      × (is_fresh_monitor s.monitor ≡ false)
      × (s.shared.num_initialized ≡ n + 1)
      × (s.shared.start ≡ true)
unfolding bit
worker_after_all {s = s} r some_busy =
    let v = Reach-IsCoordinated r in
    let on : s.shared.start ≡ true = ground (arith, v.kept) in
    (omega (arith, v.inits, v.ready on), ground (arith, v.inits, v.ready on), v.ready on, on)

-- The barrier at the end, with or without spurious wakeups: when RunBenchmark has returned, all n
-- workers have run the method and the monitor has added itself; num_done counts them, though the
-- monitor increments it without the mutex.
pub returned_after_all :
    {spurious : Bool} {n : ℕ} {s : System}
    → Reach spurious n s
    → s.main ≡ MainPhase.returned
    → (count is_finished s.workers ≡ n)
      × (count is_any s.workers ≡ n)
      × (has_added s.monitor ≡ true)
      × (s.shared.num_done ≡ n + 1)
unfolding bit
returned_after_all {s = s} r e =
    let v = Reach-IsCoordinated r in
    let few = count-le is_finished s.workers in
    let done = v.back (ground (arith, e)) in
    (
      ground (arith, v.dones, done, few, v.sized),
      v.sized,
      ground (arith, v.dones, done, few, v.sized),
      done,
    )
