-- ===== src/Observability.antt =====
-- src/observability.cpp and include/observability.hpp: the global logger, metrics and log level, and
-- `log_if_enabled`. A user's loggers and metrics are values of the types `L` and `M`; what a logger
-- answers is the parameter `log`. The globals are one record: the atomics are read and written whole.
pub mod Routing
use lite3_cpp.Base.{ℕ, Bool, true, false, leb, if◌then◌else◌, Option, none, some}

pub data LogLevel : Type 0 where
  debug info warn error : LogLevel

-- The numbers of the enumerators, by which `>=` compares them.
abbrev pub rank : LogLevel → ℕ
rank debug = 0
rank info = 1
rank warn = 2
rank error = 3

-- A pointer that is never null: the static `NullLogger` or `NullMetrics`, or the caller's object.
pub data Target (A : Type 0) : Type 0 where
  fallback : Target A
  given : A → Target A

pub record Globals (L M : Type 0) : Type 0 where
  pub g_logger : Target L
  pub g_metrics : Target M
  pub g_log_level_threshold : LogLevel

module _ {A : Type 0} where
  -- `if (p) store(p) else store(&null_...)`
  abbrev pub target_of : Option A → Target A
  target_of none = fallback
  target_of (some p) = given p

module _ {L E : Type 0} (log : L → LogLevel → E → Bool) where
  -- A call of the logger: the null logger takes anything and answers true.
  abbrev pub log_to : Target L → LogLevel → E → Bool × Option (L × LogLevel × E)
  log_to fallback level event = (true, none)
  log_to (given l) level event = (log l level event, some (l, level, event))

module _ {L M : Type 0} where
  unfoldable pub initial : Globals L M
  initial = record { g_logger = fallback; g_metrics = fallback; g_log_level_threshold = info }

  unfoldable pub set_logger : Globals L M → Option L → Globals L M
  set_logger g p = record g { g_logger = target_of p }

  unfoldable pub set_metrics : Globals L M → Option M → Globals L M
  set_metrics g p = record g { g_metrics = target_of p }

  unfoldable pub set_log_level_threshold : Globals L M → LogLevel → Globals L M
  set_log_level_threshold g level = record g { g_log_level_threshold = level }

  module _ {E : Type 0} (log : L → LogLevel → E → Bool) where
    -- The answer, and the call of a user's logger if there is one.
    unfoldable pub log_if_enabled : Globals L M → LogLevel → E → Bool × Option (L × LogLevel × E)
    log_if_enabled g level event =
        if leb (rank g.g_log_level_threshold) (rank level)
        then log_to log g.g_logger level event
        else (true, none)
