-- ===== src/Filelogger.antt =====
-- plugins/filelogger/filelogger.c and the levels of include/lausim/types.h: a logger that writes to a
-- file. The mutex is held over each access, so a call is one step.
pub mod Messages
use lau_sim.Base.{
  ℕ, ◌+◌, ◌<◌, ◌≤◌, ◌≡◌, refl, ◌∙◌, ap, sym, Bool, true, false, List, [], ◌∷◌, ◌++◌, append-nil,
  append_assoc, Option, none, some, Bytes, codes, ltb, leb, if◌then◌else◌, ℤ, pos, Bool-cases, inl,
  inr, ◌⊎◌, if_ind,
}
use lau_sim.FaultManager.{Run, ok, undefined, Answer, success, failure, PluginManagerInterface}

-- `log_level`
pub data LogLevel : Type 0 where
  ll_none ll_debug ll_info ll_warning ll_error ll_fatal : LogLevel

unfoldable pub level_number : LogLevel → ℕ
level_number ll_none = 0
level_number ll_debug = 1
level_number ll_info = 2
level_number ll_warning = 3
level_number ll_error = 4
level_number ll_fatal = 5

-- `lvl` and `log_file`
pub record Filelogger : Type 0 where
  pub lvl : LogLevel
  pub log_file : Bytes

unfoldable pub prefix : LogLevel → Bytes
prefix ll_none = codes "[NONE] "
prefix ll_debug = codes "[DEBUG]"
prefix ll_info = codes "[INFO] "
prefix ll_warning = codes "[WARN] "
prefix ll_error = codes "[ERROR]"
prefix ll_fatal = codes "[FATAL]"

unfoldable pub set_log_level : LogLevel → Filelogger → Filelogger
set_log_level level s = record s { lvl = level }

-- `fprintf (log_file, "%s %s\n", prefix, msg)`
unfoldable pub print_message : LogLevel → Bytes → Bytes
unfolding prefix
print_message level msg = prefix level ++ b' ' ∷ (msg ++ b'\n' ∷ [])

unfoldable pub logging_fun : LogLevel → Bytes → Filelogger → Filelogger
unfolding level_number print_message
logging_fun level msg s =
    if leb (level_number s.lvl) (level_number level)
    then record s { log_file = s.log_file ++ print_message level msg }
    else s

-- `init`: `argv [0]` is read with any number of arguments; without one it is NULL, which `fopen` does
-- not take.
unfoldable pub init :
    {M : Type 0}
    → PluginManagerInterface M
    → (Bytes → Bool)
    → List Bytes
    → M
    → Run (Answer Filelogger × M)
init inter fopen [] m = undefined
init inter fopen (name ∷ argv) m =
    if fopen name
    then ok (
      success (record { lvl = ll_none; log_file = [] }),
      (inter.register_plugin (codes "filelogger") m).1,
    )
    else ok (failure (pos 1), m)
