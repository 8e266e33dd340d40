-- ===== src/Log/Silence.antt =====
-- What the log prints while logs are switched off.
use application_profiler.Base.{
  ◌≡◌, refl, Bool, true, false, Error, List, [], ◌∷◌, String, ◌==◌, if◌then◌else◌, arith, inl, inr,
  Bool-cases,
}
use application_profiler.External.{External}
use application_profiler.Api.EventTypes.{EventJson, log_type}
use application_profiler.Log.{
  Console, Call, event, error, message, perform, perform_all, event_ln, error_ln, print_log_ln,
  is_print_logs_allowed,
}

module _ (x : External) (json : EventJson) (text : Error → String) where
  -- The calls that do not log.
  abbrev pub logs : Call x json text → Bool
  logs (event t d) = t == log_type
  logs (error e) = false
  logs (message level msg) = true

  unfoldable pub without_logs : List (Call x json text) → List (Call x json text)
  without_logs [] = []
  without_logs (call ∷ calls) =
      let rest = without_logs calls in if logs call then rest else call ∷ rest

  perform_quiet :
      (call : Call x json text) (c : Console)
      → c.logger.print_logs ≡ false
      → logs call ≡ true
      → perform x json text call c ≡ c
  unfolding perform event_ln print_log_ln is_print_logs_allowed
  perform_quiet (event t d) c off h = ground arith
  perform_quiet (error e) c off h = cc
  perform_quiet (message level msg) c off h = ground arith

  perform_keeps :
      (call : Call x json text) (c : Console)
      → (perform x json text call c).logger.print_logs ≡ c.logger.print_logs
  unfolding perform event_ln error_ln print_log_ln
  perform_keeps (event t d) c = ground arith
  perform_keeps (error e) c = ground arith
  perform_keeps (message level msg) c = ground arith

  -- While logs are switched off, a series of calls leaves what it leaves without its log messages.
  pub perform_all-without_logs :
      (calls : List (Call x json text)) (c : Console)
      → c.logger.print_logs ≡ false
      → perform_all x json text calls c ≡ perform_all x json text (without_logs calls) c
  unfolding perform_all without_logs
  perform_all-without_logs [] c off = refl
  perform_all-without_logs (call ∷ calls) c off = elim (Bool-cases (logs call)) [
    | inl e ↦ rw (perform_quiet call c off e) (rw e (perform_all-without_logs calls c off))
    | inr e ↦ rw e (
        perform_all-without_logs calls (perform x json text call c) (rw (perform_keeps call c) off))
  ]
