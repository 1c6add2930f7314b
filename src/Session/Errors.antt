-- ===== src/Session/Errors.antt =====
-- The sentinel errors of internal/session/store.go. An error that wraps a sentinel (`%w`) is that
-- sentinel, as `errors.Is` sees it; `other` is an error that wraps none.
pub data Error : Type 0 where
  invalid_request conflict failed_precondition invalid_ticket capacity not_found unavailable : Error
  other : Error
