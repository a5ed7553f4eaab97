-- ===== src/TestLogger/Calls.antt =====
-- Calls of a logger by the threads of src/server/TestLogger.cpp, in the order in which they were made.
use async_log_cloud_storage.Base.{
  ℕ, zero, suc, ◌≡◌, refl, ◌∙◌, ◌==◌, false, List, [], ◌∷◌, ◌++◌, if◌then◌else◌, arith,
}
use async_log_cloud_storage.Log.Flush.{Tm}

-- The call of a thread with this index, at a time.
pub record Call : Type 0 where
  pub thread : ℕ
  pub index : ℕ
  pub now : Tm

-- The indices of the calls of one thread, in order.
abbrev pub indices_of : ℕ → List Call → List ℕ
indices_of t [] = []
indices_of t (c ∷ calls) =
    let rest = indices_of t calls in if c.thread == t then c.index ∷ rest else rest

-- 0 to n - 1.
abbrev pub upto : ℕ → List ℕ
upto zero = []
upto (suc n) = upto n ++ n ∷ []

indices_of-snoc :
    (t : ℕ) (calls : List Call) (c : Call)
    → indices_of t (calls ++ c ∷ [])
      ≡ (if c.thread == t then indices_of t calls ++ c.index ∷ [] else indices_of t calls)
indices_of-snoc t [] c = refl
indices_of-snoc t (b ∷ calls) c = ground (arith, indices_of-snoc t calls c)

pub indices_of-mine :
    (calls : List Call) (c : Call)
    → indices_of c.thread (calls ++ c ∷ []) ≡ indices_of c.thread calls ++ c.index ∷ []
indices_of-mine calls c = ground (arith, indices_of-snoc c.thread calls c)

pub indices_of-other :
    (t : ℕ) (calls : List Call) (c : Call)
    → (c.thread == t) ≡ false
    → indices_of t (calls ++ c ∷ []) ≡ indices_of t calls
indices_of-other t calls c other = indices_of-snoc t calls c ∙ rw other refl
