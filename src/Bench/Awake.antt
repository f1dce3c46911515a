-- ===== src/Bench/Awake.antt =====
-- fsbench.cpp: who sleeps in Wait, when nothing but a signal wakes.
use tablefs.Base.{
  ℕ, ◌≡◌, ◌≤◌, refl, Bool, true, false, List, [], ◌∷◌, map, leb, arith, Bool-cases, inl, inr,
}
use tablefs.Bench.Threads.{
  Phase, MonitorPhase, MainPhase, System, run_benchmark, wake, wake_monitor, wake_main, wake_if,
  await_start, monitor_await_start, worker_enters, worker_resumes, worker_ends, signal_all,
  monitor_enters, monitor_resumes, monitor_looks, monitor_reads, monitor_writes, monitor_signals,
  main_counts, main_tests, move_main, Step, Reach, begins, goes_on,
}
use tablefs.Bench.Counts.{bit, is_fresh}
use tablefs.Bench.Loads.{weight_of, weight_of-moved}
use tablefs.Bench.Coordination.{IsCoordinated}
use tablefs.Bench.Barrier.{Reach-IsCoordinated}
use tablefs.Bench.Wakeups.{still_waits, has-count, ends_quietly}

abbrev pub sleeps_here : Phase → ℕ
sleeps_here Phase.asleep = 1
sleeps_here other = 0

abbrev pub is_asleep_monitor : MonitorPhase → Bool
is_asleep_monitor MonitorPhase.monitor_asleep = true
is_asleep_monitor other = false

abbrev pub is_asleep_main : MainPhase → Bool
is_asleep_main MainPhase.main_asleep = true
is_asleep_main other = false

sleeps_here-wake : (x : Phase) → sleeps_here (wake x) ≤ sleeps_here x
unfolding wake
sleeps_here-wake x = ground arith

none_after-wake : (xs : List Phase) → weight_of sleeps_here (map wake xs) ≡ 0
unfolding weight_of wake
none_after-wake [] = refl
none_after-wake (x ∷ xs) = ground (arith, none_after-wake xs)

-- RunBenchmark waits for the threads only while one has not entered; behind the start no thread
-- sleeps.
pub record IsAwake (n : ℕ) (s : System) : Type 0 where
  pub counted : is_asleep_main s.main ≡ true → s.shared.num_initialized ≤ n
  pub awake : s.shared.start ≡ true → weight_of sleeps_here s.workers ≡ 0
  pub monitor_awake : s.shared.start ≡ true → is_asleep_monitor s.monitor ≡ false

Step-IsAwake :
    {n : ℕ} {s t : System} → IsCoordinated n s → Step false n s t → IsAwake n s → IsAwake n t
unfolding worker_enters worker_resumes worker_ends bit monitor_enters monitor_await_start
    monitor_resumes monitor_looks monitor_reads monitor_writes monitor_signals signal_all
    main_counts main_tests move_main wake_main wake_monitor await_start wake_if
Step-IsAwake {n = n} {s = s} v (Step.enters before after free e) h =
    let off =
      still_waits v (ground (arith, has-count is_fresh Phase.fresh before after s.workers e)) in
    record {
      counted = λ q. ground (arith, q, v.total_is);
      awake = λ on. absurd (cc (on, off));
      monitor_awake = λ on. absurd (cc (on, off));
    }
Step-IsAwake {s = s} v (Step.resumes before after free e) h = record {
  counted = h.counted;
  awake = λ on. ground (
    arith,
    on,
    h.awake on,
    weight_of-moved sleeps_here sleeps_here-wake false Phase.woken (await_start s.shared.start)
        before after s.workers e,
  );
  monitor_awake = h.monitor_awake;
}
Step-IsAwake {s = s} v (Step.ends before after free e) h =
    rw (ends_quietly before after v e) (record {
      counted = h.counted;
      awake = λ on. ground (
        arith,
        h.awake on,
        weight_of-moved sleeps_here sleeps_here-wake false Phase.working Phase.finished before after
            s.workers e,
      );
      monitor_awake = h.monitor_awake;
    })
Step-IsAwake v (Step.stirs before after loose e) h = absurd (cc loose)
Step-IsAwake {n = n} {s = s} v (Step.joins free e) h =
    let off = still_waits v (ground (arith, e)) in
    record {
      counted = λ q. ground (arith, q, v.total_is);
      awake = λ on. absurd (cc (on, off));
      monitor_awake = λ on. absurd (cc (on, off));
    }
Step-IsAwake v (Step.rejoins free e) h = record {
  counted = h.counted;
  awake = h.awake;
  monitor_awake = λ on. ground (arith, on);
}
Step-IsAwake v (Step.monitor_stirs loose) h = absurd (cc loose)
Step-IsAwake v (Step.looks e) h = record {
  counted = h.counted;
  awake = h.awake;
  monitor_awake = λ on. ground arith;
}
Step-IsAwake v (Step.reads e) h = record {
  counted = h.counted;
  awake = h.awake;
  monitor_awake = λ on. refl;
}
Step-IsAwake v (Step.writes done e) h = record {
  counted = h.counted;
  awake = h.awake;
  monitor_awake = λ on. refl;
}
Step-IsAwake {s = s} v (Step.signals e) h = record {
  counted = λ q. ground (arith, q, h.counted);
  awake = λ on. none_after-wake s.workers;
  monitor_awake = λ on. refl;
}
Step-IsAwake v (Step.locks e) h = record {
  counted = λ q. absurd (cc q);
  awake = h.awake;
  monitor_awake = h.monitor_awake;
}
Step-IsAwake {n = n} {s = s} v (Step.counts e) h =
    elim (Bool-cases (leb s.shared.num_initialized n)) [
      | inl missing ↦ rw missing (record {
        counted = λ q. ground (arith, missing);
        awake = h.awake;
        monitor_awake = h.monitor_awake;
      })
      | inr all ↦ rw all (record {
        counted = λ q. absurd (cc q);
        awake = λ on. none_after-wake s.workers;
        monitor_awake = λ on. ground arith;
      })
    ]
Step-IsAwake v (Step.tests e) h = record {
  counted = λ q. absurd (ground (arith, q));
  awake = h.awake;
  monitor_awake = h.monitor_awake;
}
Step-IsAwake v (Step.sleeps e) h = record {
  counted = λ q. absurd (cc q);
  awake = h.awake;
  monitor_awake = h.monitor_awake;
}
Step-IsAwake v (Step.relocks e) h = record {
  counted = λ q. absurd (cc q);
  awake = h.awake;
  monitor_awake = h.monitor_awake;
}
Step-IsAwake v (Step.main_stirs loose) h = absurd (cc loose)

pub Reach-IsAwake : {n : ℕ} {s : System} → Reach false n s → IsAwake n s
unfolding run_benchmark
Reach-IsAwake begins = record {
  counted = λ q. absurd (cc q);
  awake = λ on. absurd (cc on);
  monitor_awake = λ on. refl;
}
Reach-IsAwake (goes_on r step) = Step-IsAwake (Reach-IsCoordinated r) step (Reach-IsAwake r)
