-- ===== src/StdoutLog.antt =====
-- srv/stdoutLog.cpp: the standard logger of the server, which writes to the error stream. The mutex is
-- held over the output, so a call is one step.
pub mod Same
use lau_sim.Base.{ℕ, List, [], ◌∷◌, ◌++◌, Bytes, codes, ltb, ◌==◌, if◌then◌else◌}
use lau_sim.Filelogger.{
  LogLevel, ll_none, ll_debug, ll_info, ll_warning, ll_error, ll_fatal, level_number,
}

unfoldable pub log_level_from_int : ℕ → LogLevel
log_level_from_int level =
    if level == 0
    then ll_none
    else if level == 1
    then ll_debug
    else if level == 2
    then ll_info
    else if level == 3
    then ll_warning
    else if level == 4
    then ll_error
    else if level == 5
    then ll_fatal
    else ll_warning

-- `ll_min`, and what is written to `std::cerr`.
pub record StdoutLog : Type 0 where
  pub ll_min : LogLevel
  pub cerr : Bytes

-- The state at the start of the program.
abbrev pub quiet : StdoutLog
quiet = record { ll_min = ll_none; cerr = [] }

unfoldable pub stdout_prefix : LogLevel → Bytes
stdout_prefix ll_none = codes "[NONE] "
stdout_prefix ll_debug = codes "[DEBUG]"
stdout_prefix ll_info = codes "[INFO] "
stdout_prefix ll_warning = codes "[WARN] "
stdout_prefix ll_error = codes "[ERROR]"
stdout_prefix ll_fatal = codes "[FATAL]"

unfoldable pub log_stdout : LogLevel → Bytes → StdoutLog → StdoutLog
unfolding level_number stdout_prefix
log_stdout l str s =
    if ltb (level_number l) (level_number s.ll_min)
    then s
    else record s { cerr = s.cerr ++ (stdout_prefix l ++ b' ' ∷ (str ++ b'\n' ∷ [])) }

unfoldable pub set_min_log_level : LogLevel → StdoutLog → StdoutLog
set_min_log_level l s = record s { ll_min = l }

-- `logger` of include/lausim/logger.h
pub record Logger (S : Type 0) : Type 0 where
  pub version : ℕ
  pub set_ll : LogLevel → S → S
  pub log_fun : LogLevel → Bytes → S → S

abbrev pub standard_log : Logger StdoutLog
standard_log = record { version = 2; set_ll = set_min_log_level; log_fun = log_stdout }
