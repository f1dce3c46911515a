-- ===== src/Bench/Coordination.antt =====
-- fsbench.cpp: what the counts that the threads of RunBenchmark share say of the threads.
use tablefs.Base.{
  ℕ, ◌+◌, ◌≡◌, ◌≤◌, refl, ◌∙◌, sym, ap, Bool, true, false, List, ◌∷◌, ◌++◌, if◌then◌else◌, arith,
}
use tablefs.Bench.Threads.{
  SharedState, Phase, MonitorPhase, MainPhase, System, run_benchmark, wake_monitor, wake_main,
  wake_if,
}
use tablefs.Bench.Counts.{
  bit, count, is_fresh, is_busy, is_finished, is_any, is_fresh-wake, is_busy-wake, is_finished-wake,
  count-moved, count-replicate, count-replicate_none, count-le, count-wake_if,
}
use tablefs.Bench.Places.{
  is_fresh_monitor, is_kept, is_over, has_added, read_done, has_started, is_returned, bit-le,
  monitor_still, main_still, is_fresh_monitor-wake, is_kept-wake, is_over-wake, has_added-wake,
  read_done-wake, has_started-wake, is_returned-wake, read_done-moved,
}

-- What the counts say of the threads, for `n` of them.
pub record IsCoordinated (n : ℕ) (s : System) : Type 0 where
  pub total_is : s.shared.total ≡ n + 1
  pub sized : count is_any s.workers ≡ n
  pub inits :
      s.shared.num_initialized + count is_fresh s.workers + bit (is_fresh_monitor s.monitor) ≡ n + 1
  pub dones : s.shared.num_done ≡ count is_finished s.workers + bit (has_added s.monitor)
  pub started : s.shared.start ≡ has_started s.main
  pub ready : s.shared.start ≡ true → s.shared.num_initialized ≡ n + 1
  pub kept : s.shared.start ≡ false → count is_busy s.workers ≡ 0
  pub monitor_kept : s.shared.start ≡ false → is_kept s.monitor ≡ true
  pub over : is_over s.monitor ≡ true → count is_finished s.workers ≡ n
  pub loaded : read_done s.shared.num_done s.monitor ≡ s.shared.num_done
  pub back : is_returned s.main ≡ true → s.shared.num_done ≡ n + 1

pub run_benchmark-IsCoordinated : (n : ℕ) → IsCoordinated n (run_benchmark n)
unfolding run_benchmark bit
run_benchmark-IsCoordinated n = record {
  total_is = refl;
  sized = count-replicate is_any n Phase.fresh refl;
  inits = omega (arith, count-replicate is_fresh n Phase.fresh refl);
  dones = omega (arith, count-replicate_none is_finished n Phase.fresh refl);
  started = refl;
  ready = λ h. absurd (cc h);
  kept = λ h. count-replicate_none is_busy n Phase.fresh refl;
  monitor_kept = λ h. refl;
  over = λ h. absurd (cc h);
  loaded = refl;
  back = λ h. absurd (cc h);
}

-- A step of a worker from `x` to `y` that adds `i` and `d` to the counts.
pub worker-IsCoordinated :
    {n : ℕ} (s : System) (b : Bool) (x y : Phase) (before after : List Phase) (i d ni nd : ℕ)
    → ni ≡ s.shared.num_initialized + i
    → nd ≡ s.shared.num_done + d
    → IsCoordinated n s
    → s.workers ≡ before ++ x ∷ after
    → i + bit (is_fresh y) ≡ bit (is_fresh x)
    → bit (is_finished y) ≡ d + bit (is_finished x)
    → (s.shared.start ≡ false → bit (is_busy y) ≤ bit (is_busy x))
    → IsCoordinated n (record s {
      shared = record (s.shared) { num_initialized = ni; num_done = nd };
      workers = wake_if b before ++ y ∷ wake_if b after;
      monitor = if b then wake_monitor s.monitor else s.monitor;
      main = if b then wake_main s.main else s.main;
    })
unfolding bit
worker-IsCoordinated {n} s b x y before after i d ni nd is_ni is_nd v e in_fresh in_finished
      in_busy =
    let any = count-moved is_any (λ z. refl) b x y before after s.workers e in
    let fresh = count-moved is_fresh is_fresh-wake b x y before after s.workers e in
    let busy = count-moved is_busy is_busy-wake b x y before after s.workers e in
    let finished = count-moved is_finished is_finished-wake b x y before after s.workers e in
    let few = count-le is_finished (wake_if b before ++ y ∷ wake_if b after) in
    let same = monitor_still is_over is_over-wake b s.monitor in
    record {
      total_is = v.total_is;
      sized = omega (arith, any, v.sized);
      inits = omega (
        arith,
        fresh,
        in_fresh,
        v.inits,
        ap bit (monitor_still is_fresh_monitor is_fresh_monitor-wake b s.monitor),
      );
      dones = omega (
        arith,
        finished,
        in_finished,
        v.dones,
        ap bit (monitor_still has_added has_added-wake b s.monitor),
      );
      started = v.started ∙ sym (main_still has_started has_started-wake b s.main);
      ready = λ h. omega (arith, fresh, in_fresh, v.inits, v.ready h);
      kept = λ h. omega (arith, busy, in_busy h, v.kept h);
      monitor_kept = λ h. monitor_still is_kept is_kept-wake b s.monitor ∙ v.monitor_kept h;
      over = λ h. omega (arith, few, any, v.sized, finished, in_finished, v.over (sym same ∙ h));
      loaded =
          monitor_still (read_done nd) (read_done-wake nd) b s.monitor
          ∙ read_done-moved s.shared.num_done nd s.monitor v.loaded
              (λ h. omega (arith, few, any, v.sized, finished, in_finished, v.over h));
      back = λ h. omega (
        arith,
        few,
        any,
        v.sized,
        finished,
        in_finished,
        v.dones,
        bit-le (has_added s.monitor),
        v.back (sym (main_still is_returned is_returned-wake b s.main) ∙ h),
      );
    }

-- A step of the others that may signal the workers.
pub others-IsCoordinated :
    {n : ℕ} (s : System) (b : Bool) (sh : SharedState) (monitor : MonitorPhase) (main : MainPhase)
    → IsCoordinated n s
    → sh.total ≡ n + 1
    → sh.num_initialized + bit (is_fresh_monitor monitor)
      ≡ s.shared.num_initialized + bit (is_fresh_monitor s.monitor)
    → sh.num_done + bit (has_added s.monitor) ≡ s.shared.num_done + bit (has_added monitor)
    → sh.start ≡ has_started main
    → (sh.start ≡ true → sh.num_initialized ≡ n + 1)
    → (sh.start ≡ false → s.shared.start ≡ false)
    → (sh.start ≡ false → is_kept monitor ≡ true)
    → (is_over monitor ≡ true → count is_finished s.workers ≡ n)
    → read_done sh.num_done monitor ≡ sh.num_done
    → (is_returned main ≡ true → sh.num_done ≡ n + 1)
    → IsCoordinated n
        (record s { shared = sh; workers = wake_if b s.workers; monitor = monitor; main = main })
others-IsCoordinated {n} s b sh monitor main v total inits dones started ready still kept over
      loaded back =
    record {
      total_is = total;
      sized = count-wake_if is_any (λ z. refl) b s.workers ∙ v.sized;
      inits = omega (arith, inits, v.inits, count-wake_if is_fresh is_fresh-wake b s.workers);
      dones = omega (arith, dones, v.dones, count-wake_if is_finished is_finished-wake b s.workers);
      started = started;
      ready = ready;
      kept = λ h. count-wake_if is_busy is_busy-wake b s.workers ∙ v.kept (still h);
      monitor_kept = kept;
      over = λ h. count-wake_if is_finished is_finished-wake b s.workers ∙ over h;
      loaded = loaded;
      back = back;
    }

-- A step of RunBenchmark that starts nothing.
pub main-IsCoordinated :
    {n : ℕ} (s : System) (main : MainPhase)
    → IsCoordinated n s
    → has_started main ≡ has_started s.main
    → (is_returned main ≡ true → s.shared.num_done ≡ n + 1)
    → IsCoordinated n (record s { main = main })
main-IsCoordinated s main v started back = record {
  total_is = v.total_is;
  sized = v.sized;
  inits = v.inits;
  dones = v.dones;
  started = v.started ∙ sym started;
  ready = v.ready;
  kept = v.kept;
  monitor_kept = v.monitor_kept;
  over = v.over;
  loaded = v.loaded;
  back = back;
}

-- A step of the monitor without the mutex.
pub monitor-IsCoordinated :
    {n : ℕ} (s : System) (nd : ℕ) (monitor : MonitorPhase)
    → IsCoordinated n s
    → is_fresh_monitor monitor ≡ is_fresh_monitor s.monitor
    → nd + bit (has_added s.monitor) ≡ s.shared.num_done + bit (has_added monitor)
    → is_kept monitor ≡ is_kept s.monitor
    → (is_over monitor ≡ true → count is_finished s.workers ≡ n)
    → read_done nd monitor ≡ nd
    → (is_returned s.main ≡ true → nd ≡ n + 1)
    → IsCoordinated n (record s { shared = record (s.shared) { num_done = nd }; monitor = monitor })
monitor-IsCoordinated s nd monitor v fresh dones kept over loaded back = record {
  total_is = v.total_is;
  sized = v.sized;
  inits = omega (arith, v.inits, ap bit fresh);
  dones = omega (arith, dones, v.dones);
  started = v.started;
  ready = v.ready;
  kept = v.kept;
  monitor_kept = λ h. kept ∙ v.monitor_kept h;
  over = over;
  loaded = loaded;
  back = back;
}
