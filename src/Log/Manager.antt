-- ===== src/Log/Manager.antt =====
-- `LoggerManager` of log_system/log_src/Manager.hpp, the map as an association list by name. Each call
-- runs alone.
mod Examples
use mathlib.Core.Path.{subst}
use async_log_cloud_storage.Base.{
  ℕ, ◌≡◌, refl, ap, ◌∙◌, Bool, true, false, List, [], ◌∷◌, ◌++◌, if◌then◌else◌, Text, text_eq,
  text_eq_iff, codes, Option, none, some, Outcome, ok, fail, ◌>>=◌, arith,
}
use async_log_cloud_storage.Log.Logger.{
  AsyncLogger, LoggerBuilder, new_logger_builder, build_name, build, stdout_flush,
}
use async_log_cloud_storage.Log.Worker.{async_safe}

pub record LoggerManager : Type 0 where
  pub default_logger : AsyncLogger
  pub loggers : List (Text × AsyncLogger)

unfoldable pub find_logger : Text → List (Text × AsyncLogger) → Option AsyncLogger
find_logger name [] = none
find_logger name ((n, l) ∷ loggers) = if text_eq n name then some l else find_logger name loggers

unfoldable pub logger_exist : Text → LoggerManager → Bool
logger_exist name m = elim (find_logger name m.loggers) [ none ↦ false | some l ↦ true ]

-- `std::map::insert` keeps an entry that is there.
unfoldable pub insert_logger :
    Text → AsyncLogger → List (Text × AsyncLogger) → List (Text × AsyncLogger)
insert_logger name l [] = (name, l) ∷ []
insert_logger name l ((n, k) ∷ loggers) =
    if text_eq n name then (n, k) ∷ loggers else (n, k) ∷ insert_logger name l loggers

unfoldable pub add_logger : AsyncLogger → LoggerManager → LoggerManager
add_logger l m =
    if logger_exist l.logger_name m
    then m
    else record m { loggers = insert_logger l.logger_name l m.loggers }

-- A null pointer is `none`.
unfoldable pub get_logger : Text → LoggerManager → Option AsyncLogger
get_logger name m = find_logger name m.loggers

unfoldable pub new_logger_manager : Outcome LoggerManager
new_logger_manager = build (build_name (codes "default") new_logger_builder) >>= λ built.
    ok (record { default_logger = built.1; loggers = insert_logger (codes "default") built.1 [] })

find_logger-insert_logger :
    (name key : Text) (l : AsyncLogger) (loggers : List (Text × AsyncLogger))
    → find_logger key (insert_logger name l loggers) ≡ elim (find_logger key loggers) [
      | some k ↦ some k
      | none ↦ if text_eq name key then some l else none
    ]
unfolding find_logger insert_logger
find_logger-insert_logger name key l [] = refl
find_logger-insert_logger name key l ((n, k) ∷ loggers) = ground (
  arith,
  text_eq_iff n name,
  text_eq_iff n key,
  text_eq_iff name key,
  find_logger-insert_logger name key l loggers,
)

-- After `AddLogger`, a name that had a logger still has that one; otherwise the logger's own name has
-- the logger, and every other name has none.
pub get_logger-add_logger :
    (key : Text) (l : AsyncLogger) (m : LoggerManager)
    → get_logger key (add_logger l m) ≡ elim (get_logger key m) [
      | some k ↦ some k
      | none ↦ if text_eq l.logger_name key then some l else none
    ]
unfolding get_logger add_logger logger_exist
get_logger-add_logger key l m =
    ground (
      arith,
      text_eq_iff l.logger_name key,
      find_logger-insert_logger l.logger_name key l m.loggers,
    )

abbrev add_all : List AsyncLogger → LoggerManager → LoggerManager
add_all [] m = m
add_all (l ∷ ls) m = add_all ls (add_logger l m)

add_all-kept :
    (key : Text) (k : AsyncLogger) (ls : List AsyncLogger) (m : LoggerManager)
    → get_logger key m ≡ some k
    → get_logger key (add_all ls m) ≡ some k
add_all-kept key k [] m h = h
add_all-kept key k (l ∷ ls) m h =
    add_all-kept key k ls (add_logger l m) (get_logger-add_logger key l m ∙ rw h refl)

new_logger_manager-default :
    (m : LoggerManager)
    → new_logger_manager ≡ ok m
    → get_logger (codes "default") m ≡ some m.default_logger
unfolding new_logger_manager build build_name get_logger find_logger insert_logger text_eq
new_logger_manager-default m h =
    subst (λ (n : LoggerManager). get_logger (codes "default") n ≡ some n.default_logger) made refl
  where
    standard : AsyncLogger
    standard = record {
      logger_name = codes "default";
      flushes = stdout_flush ∷ [];
      async_type = async_safe;
    }

    made : record { default_logger = standard; loggers = (codes "default", standard) ∷ [] } ≡ m
    made = cc

-- A manager has, after any calls of `AddLogger`, under "default" the default logger that it was
-- constructed with, which writes to standard output and waits for room.
pub default_kept :
    (m : LoggerManager) (ls : List AsyncLogger)
    → new_logger_manager ≡ ok m
    → (get_logger (codes "default") (add_all ls m) ≡ some m.default_logger)
      × (m.default_logger ≡ record {
        logger_name = codes "default";
        flushes = stdout_flush ∷ [];
        async_type = async_safe;
      })
unfolding new_logger_manager build build_name
default_kept m ls h = (
  add_all-kept (codes "default") m.default_logger ls m (new_logger_manager-default m h),
  ground arith,
)
