-- ===== src/Tests/Bench.antt =====
-- The benchmark at concrete inputs: one worker and the monitor.
use tablefs.Base.{◌<◌, ◌≡◌, refl, Bool, true, false, [], ◌∷◌, arith}
use tablefs.Bench.Threads.{
  System, Phase, MonitorPhase, MainPhase, run_benchmark, wake, wake_monitor, wake_main, wake_if,
  await_start, monitor_await_start, has_mutex, worker_enters, worker_resumes, worker_ends,
  signal_all, monitor_enters, monitor_resumes, monitor_looks, monitor_reads, monitor_writes,
  monitor_signals, main_counts, main_tests, move_main, Step, Reach, begins, goes_on, Run,
}
use tablefs.Bench.Counts.{bit, count, is_fresh, is_busy, is_finished, is_any}
use tablefs.Bench.Places.{is_fresh_monitor, has_added}
use tablefs.Bench.Barrier.{worker_after_all, returned_after_all}
use tablefs.Bench.Progress.{can_return}

abbrev Reached : Bool → Type 0
Reached spurious = (s : System) × Reach spurious 1 s

abbrev on : {b : Bool} (r : Reached b) {t : System} → Step b 1 r.0 t → Reached b
on r {t} step = (t, goes_on r.1 step)

-- All have entered, and RunBenchmark sleeps until they are done.
abbrev started : {b : Bool} → Reached b
unfolding run_benchmark worker_enters monitor_enters move_main main_counts main_tests has_mutex
    wake_main signal_all wake_if wake await_start
started =
    let a = on (run_benchmark 1, begins) (Step.enters [] [] refl refl) in
    let b = on a (Step.joins refl refl) in
    let c = on b (Step.locks refl) in
    let d = on c (Step.counts refl) in let e = on d (Step.tests refl) in on e (Step.sleeps refl)

-- The worker runs the method.
abbrev running : {b : Bool} → Reached b
unfolding run_benchmark worker_enters monitor_enters move_main main_counts main_tests has_mutex
    wake_main signal_all wake_if wake await_start
running = on started (Step.resumes [] [] refl refl)

abbrev running_here : Reached false
running_here = running

-- It is done, and the monitor after it.
abbrev over : Reached false
unfolding run_benchmark worker_enters monitor_enters move_main main_counts main_tests has_mutex
    wake_main signal_all wake_if wake await_start worker_resumes worker_ends monitor_await_start
    monitor_resumes monitor_looks monitor_reads monitor_writes monitor_signals wake_monitor
over =
    let a = on running (Step.ends [] [] refl refl) in
    let b = on a (Step.rejoins refl refl) in
    let c = on b (Step.looks refl) in
    let d = on c (Step.reads refl) in
    let e = on d (Step.writes 1 refl) in
    let f = on e (Step.signals refl) in let g = on f (Step.relocks refl) in on g (Step.tests refl)

one_busy : 0 < count is_busy running_here.0.workers
unfolding run_benchmark worker_enters monitor_enters move_main main_counts main_tests has_mutex
    wake_main signal_all wake_if wake await_start worker_resumes count bit
one_busy = omega arith

worker_after_all_example :
    (count is_fresh running_here.0.workers ≡ 0)
    × (is_fresh_monitor running_here.0.monitor ≡ false)
    × (running_here.0.shared.num_initialized ≡ 2)
    × (running_here.0.shared.start ≡ true)
worker_after_all_example = worker_after_all running_here.1 one_busy

is_over : over.0.main ≡ MainPhase.returned
unfolding run_benchmark worker_enters monitor_enters move_main main_counts main_tests has_mutex
    wake_main signal_all wake_if wake await_start worker_resumes worker_ends monitor_await_start
    monitor_resumes monitor_looks monitor_reads monitor_writes monitor_signals wake_monitor
is_over = refl

returned_after_all_example :
    (count is_finished over.0.workers ≡ 1)
    × (count is_any over.0.workers ≡ 1)
    × (has_added over.0.monitor ≡ true)
    × (over.0.shared.num_done ≡ 2)
returned_after_all_example = returned_after_all over.1 is_over

can_return_example :
    (t : System) × Run false 1 running_here.0 t
    × (t.main ≡ MainPhase.returned)
    × (count is_finished t.workers ≡ 1)
    × (t.monitor ≡ MonitorPhase.monitor_ended)
can_return_example = can_return running_here.1

-- With a spurious wakeup, the last signal of the monitor can fall between the test and the Wait of
-- RunBenchmark: it then sleeps, and all other threads have ended.
abbrev missed : Reached true
unfolding run_benchmark worker_enters monitor_enters move_main main_counts main_tests has_mutex
    wake_main signal_all wake_if wake await_start worker_resumes worker_ends monitor_await_start
    monitor_resumes monitor_looks monitor_reads monitor_writes monitor_signals wake_monitor
missed =
    let a = on running (Step.ends [] [] refl refl) in
    let b = on a (Step.rejoins refl refl) in
    let c = on b (Step.looks refl) in
    let d = on c (Step.main_stirs refl) in
    let e = on d (Step.relocks refl) in
    let f = on e (Step.tests refl) in
    let g = on f (Step.reads refl) in
    let h = on g (Step.writes 1 refl) in let i = on h (Step.signals refl) in on i (Step.sleeps refl)

missed_signal :
    (missed.0.main ≡ MainPhase.sleeping)
    × (missed.0.monitor ≡ MonitorPhase.monitor_ended)
    × (missed.0.workers ≡ Phase.finished ∷ [])
unfolding run_benchmark worker_enters monitor_enters move_main main_counts main_tests has_mutex
    wake_main signal_all wake_if wake await_start worker_resumes worker_ends monitor_await_start
    monitor_resumes monitor_looks monitor_reads monitor_writes monitor_signals wake_monitor
missed_signal = (refl, refl, refl)
