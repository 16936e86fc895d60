-- ===== src/Observability/Routing.antt =====
-- Which messages reach a user's logger, after any calls of the setters.
use lite3_cpp.Base.{◌≡◌, refl, Bool, true, List, [], ◌∷◌, Option, none, some, leb, if◌then◌else◌}
use lite3_cpp.Observability.{
  LogLevel, info, rank, target_of, log_to, Globals, initial, set_logger, set_metrics,
  set_log_level_threshold, log_if_enabled,
}

-- A call of a setter; a logger or metrics may be the null pointer.
pub data Setting (L M : Type 0) : Type 0 where
  logger : Option L → Setting L M
  metrics : Option M → Setting L M
  threshold : LogLevel → Setting L M

module _ {L E : Type 0} (log : L → LogLevel → E → Bool) where
  log_to-target_of :
      (p : Option L) (level : LogLevel) (event : E)
      → log_to log (target_of p) level event
        ≡ (elim p [ none ↦ (true, none) | some l ↦ (log l level event, some (l, level, event)) ])
  log_to-target_of none level event = refl
  log_to-target_of (some l) level event = refl

module _ {L M : Type 0} where
  unfoldable pub apply : Globals L M → Setting L M → Globals L M
  unfolding set_logger set_metrics set_log_level_threshold
  apply g (logger p) = set_logger g p
  apply g (metrics p) = set_metrics g p
  apply g (threshold level) = set_log_level_threshold g level

  -- The calls one after the other.
  unfoldable pub configure : Globals L M → List (Setting L M) → Globals L M
  configure g [] = g
  configure g (s ∷ ss) = configure (apply g s) ss

  -- The logger of the last call that sets one, or `p` if none does.
  unfoldable pub last_logger : Option L → List (Setting L M) → Option L
  last_logger p [] = p
  last_logger p (logger q ∷ ss) = last_logger q ss
  last_logger p (metrics q ∷ ss) = last_logger p ss
  last_logger p (threshold level ∷ ss) = last_logger p ss

  -- The threshold of the last call that sets one, or `level` if none does.
  unfoldable pub last_threshold : LogLevel → List (Setting L M) → LogLevel
  last_threshold level [] = level
  last_threshold level (logger q ∷ ss) = last_threshold level ss
  last_threshold level (metrics q ∷ ss) = last_threshold level ss
  last_threshold level (threshold other ∷ ss) = last_threshold other ss

  configured :
      (ss : List (Setting L M)) (g : Globals L M) (p : Option L) (level : LogLevel)
      → g.g_logger ≡ target_of p
      → g.g_log_level_threshold ≡ level
      → ((configure g ss).g_logger ≡ target_of (last_logger p ss))
        × ((configure g ss).g_log_level_threshold ≡ last_threshold level ss)
  unfolding configure apply last_logger last_threshold set_logger set_metrics
      set_log_level_threshold
  configured [] g p level h k = (h, k)
  configured (logger q ∷ ss) g p level h k = configured ss (set_logger g q) q level refl k
  configured (metrics q ∷ ss) g p level h k = configured ss (set_metrics g q) p level h k
  configured (threshold other ∷ ss) g p level h k =
      configured ss (set_log_level_threshold g other) p other h refl

  module _ {E : Type 0} (log : L → LogLevel → E → Bool) where
    -- After any calls of the three setters from the initial state on, an event whose level is not
    -- below the last threshold that was set, or `Info` if none was, goes to the last logger that
    -- was set, whose answer comes back; it goes nowhere, with the answer true, if the last one was
    -- the null pointer or none was set, or if its level is below the threshold.
    pub log_if_enabled-configure :
        (ss : List (Setting L M)) (level : LogLevel) (event : E)
        → log_if_enabled log (configure initial ss) level event ≡ (
            if leb (rank (last_threshold info ss)) (rank level)
            then (elim (last_logger none ss) [
              | none ↦ (true, none)
              | some l ↦ (log l level event, some (l, level, event))
            ])
            else (true, none))
    unfolding log_if_enabled
    log_if_enabled-configure ss level event =
        let (target, least) =
          configured ss initial none info (unfold initial in refl) (unfold initial in refl) in
        rw (target, least, log_to-target_of log (last_logger none ss) level event) refl
