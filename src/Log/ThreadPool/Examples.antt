-- ===== src/Log/ThreadPool/Examples.antt =====
-- A run of the pool of ThreadPool.cpp with one worker to begin with and two at most.
use mathlib.Core.List.{Perm}
use async_log_cloud_storage.Base.{◌%◌, ◌^◌, ◌≤◌, ◌≡◌, refl, false, true, [], ◌∷◌, ◌++◌, arith}
use async_log_cloud_storage.Log.ThreadPool.{
  Pool, looping, entering, taken, running, fetch, worker, testing, add_task, System, new_pool, adds,
  works, Reach, begins, later, manages, stops, ended, sleeping, counted, deciding, made,
  made_counted, draining, manager, decide, stop_pool, joins_return, over, has_returned,
  workers_returned, manager_returned,
}
use async_log_cloud_storage.Log.ThreadPool.Queue.{taken_in_order}
use async_log_cloud_storage.Log.ThreadPool.Counts.{staying, idling}
use async_log_cloud_storage.Log.ThreadPool.Promises.{ran_in, joins_return-Perm}
use async_log_cloud_storage.Log.ThreadPool.Hang.{joins_return-IsStuck}
use async_log_cloud_storage.Log.ThreadPool.Counters.{staying-le-max, counters_exact}

abbrev busy_pool : Pool
busy_pool = record {
  min_thread = 1;
  max_thread = 2;
  idle_thread = 0;
  cur_thread = 1;
  exit_thread = 0;
  stop = false;
  tasks = 8 ∷ [];
  ids = 0;
}

-- The worker is in the first of two tasks.
abbrev busy_system : System
busy_system = record {
  pool = busy_pool;
  workers = running 7 ∷ [];
  manager_at = testing;
  added = 7 ∷ 8 ∷ [];
  started = 7 ∷ [];
}

busy_reached : Reach (new_pool 1 2 0) busy_system
unfolding new_pool worker add_task fetch
busy_reached =
    later
      (later
        (later (later (later begins (adds 7)) (works [] [] looping entering _ [] refl refl))
          (works [] [] entering (taken 7) _ (7 ∷ []) refl refl))
        (works [] [] (taken 7) (running 7) _ [] refl refl))
      (adds 8)

taken_in_order_example : busy_system.started ++ busy_system.pool.tasks ≡ busy_system.added
taken_in_order_example = taken_in_order 1 2 0 busy_system busy_reached

staying-le-max_example : staying busy_system.workers ≤ 2
staying-le-max_example = staying-le-max 1 2 0 busy_system (omega arith) (omega arith) busy_reached

counters_exact_example :
    (busy_pool.cur_thread ≡ staying busy_system.workers)
    × (busy_pool.idle_thread % 2 ^ 32 ≡ idling busy_system.workers % 2 ^ 32)
counters_exact_example =
    counters_exact 1 2 0 busy_system (omega arith) (omega arith) busy_reached refl

-- Stopped then: the task is run to its end, and the one in the queue stays there.
abbrev ended_system : System
ended_system = record busy_system {
  pool = record busy_pool { stop = true; idle_thread = 1 };
  workers = ended ∷ [];
  manager_at = over;
}

ended_reached : Reach (new_pool 1 2 0) ended_system
unfolding worker manager stop_pool
ended_reached =
    later
      (later (later (later busy_reached stops) (works [] [] (running 7) looping _ [] refl refl))
        (works [] [] looping ended _ [] refl refl))
      (manages over _ [] refl)

joins_return-Perm_example : Perm (7 ∷ 8 ∷ []) (ran_in ended_reached ++ ([] ++ 8 ∷ []))
unfolding joins_return has_returned workers_returned manager_returned
joins_return-Perm_example = joins_return-Perm 1 2 0 1 ended_system ended_reached refl

-- The manager has made a second thread, the first has done its task, and the manager has asked two
-- threads to retire when the pool was stopped and both threads returned.
abbrev stuck_pool : Pool
stuck_pool = record {
  min_thread = 1;
  max_thread = 2;
  idle_thread = 2;
  cur_thread = 2;
  exit_thread = 2;
  stop = true;
  tasks = 8 ∷ [];
  ids = 0;
}

abbrev stuck_system : System
stuck_system = record {
  pool = stuck_pool;
  workers = ended ∷ ended ∷ [];
  manager_at = draining;
  added = 7 ∷ 8 ∷ [];
  started = 7 ∷ [];
}

stuck_reached : Reach (new_pool 1 2 0) stuck_system
unfolding worker manager decide stop_pool
stuck_reached =
    later
      (later
        (later
          (later
            (later
              (later
                (later
                  (later
                    (later
                      (later
                        (later
                          (later
                            (later (later (busy_reached) (manages sleeping _ [] refl))
                              (manages (counted 0) _ [] refl))
                            (manages (deciding 0 1) _ [] refl))
                          (manages made _ (looping ∷ []) refl))
                        (manages made_counted _ [] refl))
                      (manages testing _ [] refl))
                    (works [] (looping ∷ []) (running 7) looping _ [] refl refl))
                  (manages sleeping _ [] refl))
                (manages (counted 2) _ [] refl))
              (manages (deciding 2 2) _ [] refl))
            (manages draining _ [] refl))
          (stops))
        (works [] (looping ∷ []) looping ended _ [] refl refl))
      (works (ended ∷ []) [] looping ended _ [] refl refl)

joins_return-IsStuck_example : joins_return 2 stuck_system ≡ false
joins_return-IsStuck_example =
    joins_return-IsStuck 2 stuck_system stuck_system
      (record { stopped = refl; returned = refl; drains = refl; none_retired = refl }) begins
