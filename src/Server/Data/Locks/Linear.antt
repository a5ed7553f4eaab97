-- ===== src/Server/Data/Locks/Linear.antt =====
-- What the lock of src/server/DataManager.hpp gives to the threads that call `Insert` and `Update`.
use mathlib.Core.Path.{subst}
use async_log_cloud_storage.Base.{
  ℕ, replaced-all, ◌≡◌, refl, sym, ap, ◌∙◌, Bool-cases, inl, inr, List, [], ◌∷◌, ◌++◌, append_assoc,
  append-nil, if◌then◌else◌,
}
use async_log_cloud_storage.Json.{Json}
use async_log_cloud_storage.Server.Files.{Files, Disk}
use async_log_cloud_storage.Server.Data.{StorageInfo, InfoTable, DataManager, assign_info, get_all}
use async_log_cloud_storage.Server.Data.Locks.{
  Stage, idle, inserting, updating, storing, writing, System, locked_assign, locked_insert,
  locked_update, locked_get_all, write_infos, Step, calls, inserts, calls_update, updates, gets_all,
  writes, Reach, begins, later, quiet,
}

-- The records go into the table one after the other.
abbrev pub assign_all : List StorageInfo → InfoTable → InfoTable
assign_all [] table = table
assign_all (i ∷ infos) table = assign_all infos (assign_info i.url i table)

assign_all-snoc :
    (infos : List StorageInfo) (i : StorageInfo) (table : InfoTable)
    → assign_all (infos ++ i ∷ []) table ≡ assign_info i.url i (assign_all infos table)
assign_all-snoc [] i table = refl
assign_all-snoc (x ∷ infos) i table = assign_all-snoc infos i (assign_info x.url x table)

-- The manager with these records put in.
abbrev pub manager_with : List StorageInfo → DataManager → DataManager
manager_with infos m = record m { table = assign_all infos m.table }

-- The first list begins the second.
abbrev pub IsPrefix : List StorageInfo → List StorageInfo → Type 0
IsPrefix past inserted = (rest : List StorageInfo) × (past ++ rest ≡ inserted)

-- The record is in the list.
abbrev pub Has : StorageInfo → List StorageInfo → Type 0
Has i infos =
    (before : List StorageInfo) × (after : List StorageInfo) × (before ++ i ∷ after ≡ infos)

IsPrefix-snoc :
    (past inserted : List StorageInfo) (i : StorageInfo)
    → IsPrefix past inserted
    → IsPrefix past (inserted ++ i ∷ [])
IsPrefix-snoc past inserted i (rest, same) =
    (rest ++ i ∷ [], sym (append_assoc past rest (i ∷ [])) ∙ ap (λ l. l ++ i ∷ []) same)

Has-snoc :
    (x i : StorageInfo) (inserted : List StorageInfo) → Has x inserted → Has x (inserted ++ i ∷ [])
Has-snoc x i inserted (before, after, same) = (
  before,
  after ++ i ∷ [],
  sym (append_assoc before (x ∷ after) (i ∷ [])) ∙ ap (λ l. l ++ i ∷ []) same,
)

-- A thread behind its lock has its record in the table, and what it is about to write is what the table
-- was at some moment from then on.
abbrev pub IsLinear : DataManager → List StorageInfo → Stage → Type 0
IsLinear m inserted (storing info) = Has info inserted
IsLinear m inserted (writing info arr) =
    (past : List StorageInfo) × IsPrefix past inserted
    × Has info past
    × (arr ≡ get_all (manager_with past m))
IsLinear m inserted _ = Unit {0}

IsLinear-snoc :
    (m : DataManager) (inserted : List StorageInfo) (i : StorageInfo) (st : Stage)
    → IsLinear m inserted st
    → IsLinear m (inserted ++ i ∷ []) st
IsLinear-snoc m inserted i (writing info arr) (past, first, own, same) =
    (past, IsPrefix-snoc past inserted i first, own, same)
IsLinear-snoc m inserted i idle v = tt
IsLinear-snoc m inserted i (inserting x) v = tt
IsLinear-snoc m inserted i (updating x) v = tt
IsLinear-snoc m inserted i (storing x) v = Has-snoc x i inserted v

record Inv (m : DataManager) (s : System) : Type 0 where
  linear : s.manager ≡ manager_with s.inserted m
  stages : (t : ℕ) → IsLinear m s.inserted (s.stage t)

locked_assign-Inv :
    (m : DataManager) (t : ℕ) (info : StorageInfo) (next : Stage) (s : System)
    → IsLinear m (s.inserted ++ info ∷ []) next
    → Inv m s
    → Inv m (locked_assign t info next s)
unfolding locked_assign
locked_assign-Inv m t info next s there v = record {
  linear =
      ap (λ (n : DataManager). record n { table = assign_info info.url info n.table }) v.linear
      ∙ ap (λ (x : InfoTable). record m { table = x })
          (sym (assign_all-snoc s.inserted info m.table));
  stages =
      replaced-all (λ u st. IsLinear m (s.inserted ++ info ∷ []) st) t next s.stage there
        (λ u _. IsLinear-snoc m s.inserted info (s.stage u) (v.stages u));
}

locked_insert-Inv :
    (m : DataManager) (t : ℕ) (info : StorageInfo) (s : System)
    → Inv m s
    → Inv m (locked_insert t info s)
unfolding locked_insert
locked_insert-Inv m t info s v =
    locked_assign-Inv m t info (if s.manager.need_persist then storing info else idle) s
      (elim (Bool-cases s.manager.need_persist) [
        | inl y ↦ rw y (s.inserted, [], refl)
        | inr n ↦ rw n tt
      ])
      v

locked_get_all-Inv :
    (m : DataManager) (t : ℕ) (info : StorageInfo) (s : System)
    → s.stage t ≡ storing info
    → Inv m s
    → Inv m (locked_get_all t info s)
unfolding locked_get_all
locked_get_all-Inv m t info s at v = record {
  linear = v.linear;
  stages =
      replaced-all (λ u st. IsLinear m s.inserted st) t (writing info (get_all s.manager)) s.stage
        (
          s.inserted,
          ([], append-nil s.inserted),
          subst (IsLinear m s.inserted) at (v.stages t),
          ap get_all v.linear,
        )
        (λ u _. v.stages u);
}

module _ (j : Json) (d : Disk) (m : DataManager) where
  Step-Inv : {s t : System} → Step j d s t → Inv m s → Inv m t
  unfolding write_infos locked_update
  Step-Inv {s} (calls t info at) v = record {
    linear = v.linear;
    stages =
        replaced-all (λ u st. IsLinear m s.inserted st) t (inserting info) s.stage tt
          (λ u _. v.stages u);
  }
  Step-Inv {s} (inserts t info at) v = locked_insert-Inv m t info s v
  Step-Inv {s} (calls_update t info at) v = record {
    linear = v.linear;
    stages =
        replaced-all (λ u st. IsLinear m s.inserted st) t (updating info) s.stage tt
          (λ u _. v.stages u);
  }
  Step-Inv {s} (updates t info at) v =
      locked_assign-Inv m t info (storing info) s (s.inserted, [], refl) v
  Step-Inv {s} (gets_all t info at) v = locked_get_all-Inv m t info s at v
  Step-Inv {s} (writes t info arr at) v = record {
    linear = v.linear;
    stages = replaced-all (λ u st. IsLinear m s.inserted st) t idle s.stage tt (λ u _. v.stages u);
  }

  module _ (fs : Files) where
    Reach-Inv : {s : System} → Reach j d (quiet m fs) s → Inv m s
    Reach-Inv begins = record { linear = refl; stages = λ t. tt }
    Reach-Inv (later r st) = Step-Inv st (Reach-Inv r)

    -- However the threads that call `Insert` and `Update` take turns, the table is that of one thread that puts in
    -- the records one after the other, in the order in which their threads held the lock. A thread that
    -- goes on to `Storage` has its record in that order; and the list that it is about to write is that
    -- of the table at a moment when its own record was in.
    pub one_order :
        (s : System)
        → Reach j d (quiet m fs) s
        → (s.manager ≡ manager_with s.inserted m) × ((t : ℕ) → IsLinear m s.inserted (s.stage t))
    one_order s r = let v = Reach-Inv r in (v.linear, v.stages)
