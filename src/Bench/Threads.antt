-- ===== src/Bench/Threads.antt =====
-- fsbench.cpp: RunBenchmark, ThreadBody and MonitorThreadBody, interleaved. A block that runs under
-- the mutex is one step, and so is each access without it. The thread of RunBenchmark keeps the
-- mutex over several steps, which no block under the mutex comes between.
use tablefs.Base.{
  ℕ, ◌+◌, ◌-◌, ◌≡◌, Bool, true, false, List, ◌∷◌, ◌++◌, map, if◌then◌else◌, ltb, leb, replicate,
}

-- `SharedState`, without the mutex and the condition variable
pub record SharedState : Type 0 where
  pub total : ℕ
  pub num_initialized : ℕ
  pub num_done : ℕ
  pub start : Bool

-- Where a thread of ThreadBody stands. One that is woken has the mutex to take again.
pub data Phase : Type 0 where
  fresh : Phase
  asleep : Phase
  woken : Phase
  working : Phase
  finished : Phase

-- Where the thread of MonitorThreadBody stands: in the loop, behind it, with `num_done` read and to
-- be written, before its last SignalAll, at its end.
pub data MonitorPhase : Type 0 where
  monitor_fresh : MonitorPhase
  monitor_asleep : MonitorPhase
  monitor_woken : MonitorPhase
  watching : MonitorPhase
  leaving : MonitorPhase
  adding : (done : ℕ) → MonitorPhase
  signalling : MonitorPhase
  monitor_ended : MonitorPhase

-- Where RunBenchmark stands. The mutex is to be taken: `locking`, `relocking`. It is held:
-- `counting`, before the test of num_initialized, `testing`, before that of num_done, and
-- `waiting`, with the test passed and before Wait.
pub data MainPhase : Type 0 where
  locking : MainPhase
  counting : MainPhase
  main_asleep : MainPhase
  testing : MainPhase
  waiting : MainPhase
  sleeping : MainPhase
  relocking : MainPhase
  returned : MainPhase

pub record System : Type 0 where
  pub shared : SharedState
  pub workers : List Phase
  pub monitor : MonitorPhase
  pub main : MainPhase

-- RunBenchmark with the threads started, for `n` threads
unfoldable pub run_benchmark : ℕ → System
run_benchmark n = record {
  shared = record { total = n + 1; num_initialized = 0; num_done = 0; start = false };
  workers = replicate n Phase.fresh;
  monitor = MonitorPhase.monitor_fresh;
  main = MainPhase.locking;
}

unfoldable pub wake : Phase → Phase
wake Phase.asleep = Phase.woken
wake other = other

unfoldable pub wake_monitor : MonitorPhase → MonitorPhase
wake_monitor MonitorPhase.monitor_asleep = MonitorPhase.monitor_woken
wake_monitor other = other

unfoldable pub wake_main : MainPhase → MainPhase
wake_main MainPhase.main_asleep = MainPhase.locking
wake_main MainPhase.sleeping = MainPhase.relocking
wake_main other = other

-- The others, where SignalAll is called or not.
unfoldable pub wake_if : Bool → List Phase → List Phase
wake_if b xs = if b then map wake xs else xs

-- `while (!shared->start) shared->cv.Wait();`
unfoldable pub await_start : Bool → Phase
await_start start = if start then Phase.working else Phase.asleep

unfoldable pub monitor_await_start : Bool → MonitorPhase
monitor_await_start start = if start then MonitorPhase.watching else MonitorPhase.monitor_asleep

unfoldable pub has_mutex : MainPhase → Bool
has_mutex MainPhase.counting = true
has_mutex MainPhase.testing = true
has_mutex MainPhase.waiting = true
has_mutex other = false

-- The first block of ThreadBody, by the worker between `before` and `after`
unfoldable pub worker_enters : List Phase → List Phase → System → System
worker_enters before after s =
    let sh = record (s.shared) { num_initialized = s.shared.num_initialized + 1 } in
    let ready = leb sh.total sh.num_initialized in
    record s {
      shared = sh;
      workers = wake_if ready before ++ await_start sh.start ∷ wake_if ready after;
      monitor = if ready then wake_monitor s.monitor else s.monitor;
      main = if ready then wake_main s.main else s.main;
    }

-- The return of Wait, and the test of the loop
unfoldable pub worker_resumes : List Phase → List Phase → System → System
worker_resumes before after s = record s { workers = before ++ await_start s.shared.start ∷ after }

-- The second block, after the method
unfoldable pub worker_ends : List Phase → List Phase → System → System
worker_ends before after s =
    let sh = record (s.shared) { num_done = s.shared.num_done + 1 } in
    let ready = leb sh.total sh.num_done in
    record s {
      shared = sh;
      workers = wake_if ready before ++ Phase.finished ∷ wake_if ready after;
      monitor = if ready then wake_monitor s.monitor else s.monitor;
      main = if ready then wake_main s.main else s.main;
    }

unfoldable pub signal_all : System → System
signal_all s = record s {
  workers = map wake s.workers;
  monitor = wake_monitor s.monitor;
  main = wake_main s.main;
}

-- The first block of MonitorThreadBody
unfoldable pub monitor_enters : System → System
monitor_enters s =
    let sh = record (s.shared) { num_initialized = s.shared.num_initialized + 1 } in
    let ready = leb sh.total sh.num_initialized in
    record s {
      shared = sh;
      workers = wake_if ready s.workers;
      monitor = monitor_await_start sh.start;
      main = if ready then wake_main s.main else s.main;
    }

unfoldable pub monitor_resumes : System → System
monitor_resumes s = record s { monitor = monitor_await_start s.shared.start }

-- `while (shared->num_done < shared->total - 1)`
unfoldable pub monitor_looks : System → System
monitor_looks s = record s {
  monitor =
      if ltb s.shared.num_done (s.shared.total - 1)
      then MonitorPhase.watching
      else MonitorPhase.leaving;
}

-- `shared->num_done ++;` without the mutex: the read, and the write
unfoldable pub monitor_reads : System → System
monitor_reads s = record s { monitor = MonitorPhase.adding s.shared.num_done }

unfoldable pub monitor_writes : ℕ → System → System
monitor_writes done s = record s {
  shared = record (s.shared) { num_done = done + 1 };
  monitor = MonitorPhase.signalling;
}

unfoldable pub monitor_signals : System → System
monitor_signals s = record (signal_all s) { monitor = MonitorPhase.monitor_ended }

-- `while (shared.num_initialized <= n) shared.cv.Wait();`, then the start and SignalAll
unfoldable pub main_counts : ℕ → System → System
main_counts n s =
    if leb s.shared.num_initialized n
    then record s { main = MainPhase.main_asleep }
    else record (signal_all (record s { shared = record (s.shared) { start = true } })) {
      main = MainPhase.testing;
    }

-- `while (shared.num_done <= n)`: the test; behind the loop the mutex is given back
unfoldable pub main_tests : ℕ → System → System
main_tests n s = record s {
  main = if leb s.shared.num_done n then MainPhase.waiting else MainPhase.returned;
}

unfoldable pub move_main : MainPhase → System → System
move_main phase s = record s { main = phase }

-- One step, for `n` threads. Where `spurious`, Wait can also return without a signal.
pub data Step (spurious : Bool) (n : ℕ) (s : System) : System → Type 0 where
  enters :
      (before after : List Phase)
      → has_mutex s.main ≡ false
      → s.workers ≡ before ++ Phase.fresh ∷ after
      → Step spurious n s (worker_enters before after s)
  resumes :
      (before after : List Phase)
      → has_mutex s.main ≡ false
      → s.workers ≡ before ++ Phase.woken ∷ after
      → Step spurious n s (worker_resumes before after s)
  ends :
      (before after : List Phase)
      → has_mutex s.main ≡ false
      → s.workers ≡ before ++ Phase.working ∷ after
      → Step spurious n s (worker_ends before after s)
  stirs :
      (before after : List Phase)
      → spurious ≡ true
      → s.workers ≡ before ++ Phase.asleep ∷ after
      → Step spurious n s (record s { workers = before ++ Phase.woken ∷ after })
  joins :
      has_mutex s.main ≡ false
      → s.monitor ≡ MonitorPhase.monitor_fresh
      → Step spurious n s (monitor_enters s)
  rejoins :
      has_mutex s.main ≡ false
      → s.monitor ≡ MonitorPhase.monitor_woken
      → Step spurious n s (monitor_resumes s)
  monitor_stirs :
      spurious ≡ true → Step spurious n s (record s { monitor = wake_monitor s.monitor })
  looks : s.monitor ≡ MonitorPhase.watching → Step spurious n s (monitor_looks s)
  reads : s.monitor ≡ MonitorPhase.leaving → Step spurious n s (monitor_reads s)
  writes :
      (done : ℕ) → s.monitor ≡ MonitorPhase.adding done → Step spurious n s (monitor_writes done s)
  signals : s.monitor ≡ MonitorPhase.signalling → Step spurious n s (monitor_signals s)
  locks : s.main ≡ MainPhase.locking → Step spurious n s (move_main MainPhase.counting s)
  counts : s.main ≡ MainPhase.counting → Step spurious n s (main_counts n s)
  tests : s.main ≡ MainPhase.testing → Step spurious n s (main_tests n s)
  sleeps : s.main ≡ MainPhase.waiting → Step spurious n s (move_main MainPhase.sleeping s)
  relocks : s.main ≡ MainPhase.relocking → Step spurious n s (move_main MainPhase.testing s)
  main_stirs : spurious ≡ true → Step spurious n s (record s { main = wake_main s.main })

pub data Reach (spurious : Bool) (n : ℕ) : System → Type 0 where
  begins : Reach spurious n (run_benchmark n)
  goes_on : {s t : System} → Reach spurious n s → Step spurious n s t → Reach spurious n t

-- Steps one after another.
pub data Run (spurious : Bool) (n : ℕ) : System → System → Type 0 where
  stays : {s : System} → Run spurious n s s
  then : {s t u : System} → Step spurious n s t → Run spurious n t u → Run spurious n s u
