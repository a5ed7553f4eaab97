-- ===== src/Log/ThreadPool/Turns.antt =====
-- The steps of a worker and of the manager of ThreadPool.cpp, and the counts of the threads.
use async_log_cloud_storage.Base.{ℕ, ◌^◌, ◌<◌, ◌≡◌, ◌∙◌, List, ◌∷◌, ◌++◌, some, arith}
use async_log_cloud_storage.Log.ThreadPool.{
  Pool, Worker, Manager, testing, sleeping, counted, deciding, draining, joining, made,
  made_counted, over, decide, manager,
}
use async_log_cloud_storage.Log.ThreadPool.Counts.{
  staying, staying-append, idling-append, Counts, Moves, IsFresh-le,
}

pub works-Counts :
    (max : ℕ) (p q : Pool) (m : Manager) (before after : List Worker) (w w' : Worker)
    → max < 2 ^ 31
    → Counts max p m (before ++ w ∷ after)
    → Moves w w' p q
    → Counts max q m (before ++ w' ∷ after)
works-Counts max p q m before after w w' small v moved = record {
  same_max = moved.same_max ∙ v.same_max;
  cur_fits = omega (arith, moved.cur);
  cur = omega (
    arith,
    v.cur_fits,
    moved.cur,
    moved.leaves,
    v.cur,
    v.bounded,
    staying-append before (w ∷ after),
    staying-append before (w' ∷ after),
  );
  idle = omega (
    arith,
    moved.idle,
    v.idle,
    idling-append before (w ∷ after),
    idling-append before (w' ∷ after),
  );
  bounded = omega (
    arith,
    moved.leaves,
    v.bounded,
    staying-append before (w ∷ after),
    staying-append before (w' ∷ after),
  );
  fresh =
      IsFresh-le m (staying (before ++ w' ∷ after)) (staying (before ++ w ∷ after))
        (omega (
          arith,
          moved.leaves,
          staying-append before (w ∷ after),
          staying-append before (w' ∷ after),
        ))
        v.fresh;
}

pub manager-Counts :
    (max : ℕ) (m m' : Manager) (p q : Pool) (ws new : List Worker)
    → max < 2 ^ 31
    → Counts max p m ws
    → manager m p ≡ some (q, m', new)
    → Counts max q m' (ws ++ new)
unfolding manager decide
manager-Counts max testing m' p q ws new small v h = ground (
  arith,
  staying-append ws new,
  idling-append ws new,
  v.same_max,
  v.cur_fits,
  v.cur,
  v.idle,
  v.bounded,
  v.fresh,
)
manager-Counts max sleeping m' p q ws new small v h = ground (
  arith,
  staying-append ws new,
  idling-append ws new,
  v.same_max,
  v.cur_fits,
  v.cur,
  v.idle,
  v.bounded,
  v.fresh,
)
manager-Counts max (counted i) m' p q ws new small v h = ground (
  arith,
  staying-append ws new,
  idling-append ws new,
  v.same_max,
  v.cur_fits,
  v.cur,
  v.idle,
  v.bounded,
  v.fresh,
)
manager-Counts max (deciding i c) m' p q ws new small v h = ground (
  arith,
  staying-append ws new,
  idling-append ws new,
  v.same_max,
  v.cur_fits,
  v.cur,
  v.idle,
  v.bounded,
  v.fresh,
)
manager-Counts max draining m' p q ws new small v h = ground (
  arith,
  staying-append ws new,
  idling-append ws new,
  v.same_max,
  v.cur_fits,
  v.cur,
  v.idle,
  v.bounded,
  v.fresh,
)
manager-Counts max joining m' p q ws new small v h = ground (
  arith,
  staying-append ws new,
  idling-append ws new,
  v.same_max,
  v.cur_fits,
  v.cur,
  v.idle,
  v.bounded,
  v.fresh,
)
manager-Counts max made m' p q ws new small v h = ground (
  arith,
  staying-append ws new,
  idling-append ws new,
  v.same_max,
  v.cur_fits,
  v.cur,
  v.idle,
  v.bounded,
  v.fresh,
)
manager-Counts max made_counted m' p q ws new small v h = ground (
  arith,
  staying-append ws new,
  idling-append ws new,
  v.same_max,
  v.cur_fits,
  v.cur,
  v.idle,
  v.bounded,
  v.fresh,
)
manager-Counts max over m' p q ws new small v h = absurd (ground arith)
