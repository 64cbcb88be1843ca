-- ===== src/Metrics.antt =====
-- internal/infrastructure/metrics/metrics.go: the labels of the counter of fetch attempts.

-- StatusOK, StatusRetry, StatusImpossible, StatusGiveUp and StatusManual.
pub data AttemptStatus : Type 0 where
  status_ok status_retry status_impossible status_give_up status_manual : AttemptStatus
