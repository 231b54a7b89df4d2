-- ===== src/Logger.antt =====
-- The logger (pkg/logger/Logger.go): its level is the environment's integer as an `int8`.
use kubewatch.Common.{Option, ap, arith, inl, inr, none, some, some_eq, ◌∙◌, ◌≡◌}
use kubewatch.Common.Int.{ℤ}
use kubewatch.Common.Result.{Result, Result-cases, err, ok}
use kubewatch.Common.Wrap.{IsWithin, wrap, wrap-IsWithin, wrap-within}

-- `zapcore.Level`, an `int8`.
unfoldable pub level_of : ℤ → ℤ
level_of level = wrap 128 level

module _ {L : Type 0} (build : ℤ → Result L) where
  abbrev built_or_panic : Result L → Option L
  built_or_panic (err e) = none
  built_or_panic (ok log) = some log

  -- `NewSugaredLogger`, given `LOG_LEVEL` as it is parsed and the building of a logger of a level;
  -- `none` is a panic.
  unfoldable pub new_sugared_logger : Result ℤ → Option L
  new_sugared_logger (err e) = none
  new_sugared_logger (ok level) = built_or_panic (build (level_of level))

-- The level of the logger is always between -128 and 127. A level in the environment that lies
-- between them is the one that the logger is built with.
pub new_sugared_logger-level :
    {L : Type 0} (build : ℤ → Result L) (level : ℤ) {log : L}
    → new_sugared_logger build (ok level) ≡ some log
    → (used : ℤ) × (build used ≡ ok log) × IsWithin 128 used × (IsWithin 128 level → used ≡ level)
unfolding new_sugared_logger level_of
new_sugared_logger-level build level h = elim (Result-cases (build (level_of level))) [
  | inl (log', e) ↦ (
    level_of level,
    e ∙ ap ok (some_eq (rw e at h)),
    wrap-IsWithin 128 (omega arith) level,
    λ b. wrap-within 128 level b,
  )
  | inr (m, e) ↦ cc (rw e at h)
]
