-- ===== src/StdoutLog/Same.antt =====
-- The standard logger (srv/stdoutLog.cpp) against the file logger (plugins/filelogger/filelogger.c).
use lau_sim.Base.{
  ◌≡◌, refl, true, false, List, [], ◌∷◌, Bytes, ltb, leb, Bool-cases, inl, inr, arith,
}
use lau_sim.Filelogger.{
  LogLevel, ll_none, ll_debug, ll_info, ll_warning, ll_error, ll_fatal, level_number, Filelogger,
  prefix, print_message, set_log_level, logging_fun,
}
use lau_sim.Filelogger.Messages.{Call, set_ll, log_fun, perform}
use lau_sim.StdoutLog.{
  StdoutLog, stdout_prefix, log_stdout, set_min_log_level, Logger, standard_log,
}

-- Calls of any logger.
unfoldable pub calls : {S : Type 0} → Logger S → List Call → S → S
calls g [] s = s
calls g (set_ll level ∷ cs) s = calls g cs (g.set_ll level s)
calls g (log_fun level msg ∷ cs) s = calls g cs (g.log_fun level msg s)

-- The state of the standard logger that corresponds to one of the file logger.
abbrev pub on_cerr : Filelogger → StdoutLog
on_cerr s = record { ll_min = s.lvl; cerr = s.log_file }

same_prefix : (l : LogLevel) → stdout_prefix l ≡ prefix l
unfolding stdout_prefix prefix
same_prefix ll_none = refl
same_prefix ll_debug = refl
same_prefix ll_info = refl
same_prefix ll_warning = refl
same_prefix ll_error = refl
same_prefix ll_fatal = refl

log_stdout-logging_fun :
    (l : LogLevel) (msg : Bytes) (s : Filelogger)
    → log_stdout l msg (on_cerr s) ≡ on_cerr (logging_fun l msg s)
unfolding log_stdout logging_fun print_message
log_stdout-logging_fun l msg s = elim (Bool-cases (leb (level_number s.lvl) (level_number l))) [
  | inl high ↦
      let low : ltb (level_number l) (level_number s.lvl) ≡ false = ground arith in
      rw (high, low, same_prefix l) refl
  | inr low ↦
      let high : ltb (level_number l) (level_number s.lvl) ≡ true = ground arith in
      rw (low, high) refl
]

-- Whatever calls are made, the standard logger writes to the error stream just what the file logger
-- writes to its file.
pub calls-perform :
    (cs : List Call) (s : Filelogger) → calls standard_log cs (on_cerr s) ≡ on_cerr (perform cs s)
unfolding calls perform set_min_log_level set_log_level
calls-perform [] s = refl
calls-perform (set_ll level ∷ cs) s = calls-perform cs (set_log_level level s)
calls-perform (log_fun level msg ∷ cs) s =
    rw (log_stdout-logging_fun level msg s) (calls-perform cs (logging_fun level msg s))
