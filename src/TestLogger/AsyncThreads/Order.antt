-- ===== src/TestLogger/AsyncThreads/Order.antt =====
-- What the worker delivers of the calls of the threads of src/server/TestLogger.cpp, and in which order.
use mathlib.Core.List.{map-append}
use async_log_cloud_storage.Base.{
  replaced-all, ℕ, suc, ◌<◌, ◌≡◌, refl, sym, ap, ◌∙◌, true, false, List, [], ◌∷◌, ◌++◌,
  append_assoc, append-nil, map, flatten, flatten-append, Text, c_str, codes, ok, arith,
}
use async_log_cloud_storage.Log.Config.{LogConfig}
use async_log_cloud_storage.Log.Message.{info, format}
use async_log_cloud_storage.Log.Logger.{pushes, log_at, serialize, is_backed_up}
use async_log_cloud_storage.Log.Worker.{
  async_safe, drained, Worker, new_worker, pushed, push, thread_entry, stop_worker,
}
use async_log_cloud_storage.Log.Worker
use async_log_cloud_storage.Log.Worker.Stall.{push-consumer, advance-stop}
use async_log_cloud_storage.Log.Worker.Finish.{drained_complete, drained-stop}
use async_log_cloud_storage.TestLogger.Calls.{
  Call, indices_of, upto, indices_of-mine, indices_of-other,
}
use async_log_cloud_storage.TestLogger.AsyncThreads.{
  System, async_thread_text, thread_info, info_step, Step, logs, consumes, stops, Reach, begins,
  later,
}

module _ (tid : ℕ → Text) (file : Text) (line : ℕ) where
  -- The line of a call.
  abbrev pub async_line_of : Call → Text
  async_line_of call = format (record {
    level = info;
    filename = file;
    line = line;
    timestamp = call.now;
    message = c_str (async_thread_text call.thread call.index);
    logger_name = codes "cloud_storage";
    tid = tid call.thread;
  })

  thread_info-pushes :
      (call : Call) → thread_info tid file line call ≡ ok (pushes (async_line_of call) ∷ [])
  unfolding thread_info log_at serialize is_backed_up
  thread_info-pushes call = refl

  thread_info-bytes :
      (call : Call) (bytes : Text)
      → thread_info tid file line call ≡ ok (pushes bytes ∷ [])
      → bytes ≡ async_line_of call
  unfolding thread_info log_at serialize is_backed_up
  thread_info-bytes call bytes h = ground arith

  module _ (c : LogConfig) (thread_count logs_per_thread : ℕ) (w : Worker)
      (first : Worker.System) where
    record Inv (s : System) : Type 0 where
      reached : Worker.Reach c w s.logger
      accepted : s.logger.accepted ≡ first.accepted ++ map async_line_of s.calls
      counted : (t : ℕ) → indices_of t s.calls ≡ upto (s.next t)
      joined : s.logger.worker.stop ≡ true → (t : ℕ) → t < thread_count → s.next t ≡ logs_per_thread

    info_step-Inv :
        (call : Call) (bytes : Text) (v : Worker) (s : System)
        → call.thread < thread_count
        → s.next call.thread ≡ call.index
        → call.index < logs_per_thread
        → thread_info tid file line call ≡ ok (pushes bytes ∷ [])
        → push c bytes s.logger.worker ≡ pushed v
        → Inv s
        → Inv (info_step call bytes v s)
    unfolding info_step
    info_step-Inv call bytes v s in_range at more made stored i = record {
      reached = Worker.Reach.later i.reached (Worker.Step.producer_stores bytes v stored);
      accepted =
          ap (λ (l : List Text). l ++ bytes ∷ []) i.accepted
          ∙ append_assoc first.accepted (map async_line_of s.calls) (bytes ∷ [])
          ∙ ap (λ (l : List Text). first.accepted ++ l)
              (ap (λ (b : Text). map async_line_of s.calls ++ b ∷ [])
                  (thread_info-bytes call bytes made)
                ∙ sym (map-append async_line_of s.calls (call ∷ [])));
      counted =
          replaced-all (λ u n. indices_of u (s.calls ++ call ∷ []) ≡ upto n) call.thread
            (suc call.index) s.next
            (indices_of-mine s.calls call
              ∙ ap (λ (ks : List ℕ). ks ++ call.index ∷ [])
                  (i.counted call.thread ∙ ap (λ (n : ℕ). upto n) at))
            (λ u e. indices_of-other u s.calls call e ∙ i.counted u);
      joined = λ stopped. absurd (
          omega (
            arith,
            i.joined (sym (push-consumer c bytes s.logger.worker v stored).2 ∙ stopped) call.thread
                in_range,
            at,
            more,
          ));
    }

    module _ (made : new_worker c async_safe ≡ ok w) where
      Step-Inv :
          {s t : System} → Step c tid file line thread_count logs_per_thread s t → Inv s → Inv t
      unfolding thread_entry stop_worker
      Step-Inv {s} (logs call bytes v in_range at more printed stored) i =
          info_step-Inv call bytes v s in_range at more printed stored i
      Step-Inv {s} (consumes v texts ran) i = record {
        reached = Worker.Reach.later i.reached (Worker.Step.consumer_runs v texts ran);
        accepted = i.accepted;
        counted = i.counted;
        joined = λ stopped.
            i.joined
              (sym (advance-stop s.logger.worker.consumer s.logger.worker v texts ran).0 ∙ stopped);
      }
      Step-Inv {s} (stops all) i = record {
        reached = Worker.Reach.later i.reached Worker.Step.stops;
        accepted = i.accepted;
        counted = i.counted;
        joined = λ _. all;
      }

      module _ (before : Worker.Reach c w first) (running : first.worker.stop ≡ false) where
        Reach-Inv :
            {s : System} → Reach c tid file line thread_count logs_per_thread first s → Inv s
        Reach-Inv begins = record {
          reached = before;
          accepted = sym (append-nil first.accepted);
          counted = λ t. refl;
          joined = λ stopped. absurd (cc);
        }
        Reach-Inv (later r st) = Step-Inv st (Reach-Inv r)

        -- From a state of a worker of type ASYNC_SAFE before `Stop`, and however the threads and the
        -- consumer take turns: once the consumer has returned from its end test, it has delivered the
        -- bytes that were stored before, and then the lines of the calls, in the order in which they
        -- were stored; and each thread has made its calls with the indices from 0 on, all of them,
        -- each once and in order.
        pub async_lines_in_order :
            (s : System)
            → Reach c tid file line thread_count logs_per_thread first s
            → s.logger.worker.consumer ≡ drained
            → (flatten s.logger.delivered
                ≡ flatten first.accepted ++ flatten (map async_line_of s.calls))
              × ((t : ℕ) → t < thread_count → indices_of t s.calls ≡ upto logs_per_thread)
        async_lines_in_order s r done =
            let i = Reach-Inv r in
            let joined = i.joined (drained-stop c w s.logger made i.reached done) in
            (
              drained_complete c w s.logger made i.reached done
                  ∙ ap flatten i.accepted
                  ∙ flatten-append first.accepted (map async_line_of s.calls),
              λ t in_range. i.counted t ∙ ap (λ (n : ℕ). upto n) (joined t in_range),
            )
