-- ===== src/Filelogger/Messages.antt =====
-- What the file of plugins/filelogger/filelogger.c holds behind any calls.
use mathlib.Core.List.{flatten}
use lau_sim.Base.{
  ◌≡◌, refl, ◌∙◌, sym, List, [], ◌∷◌, ◌++◌, map, append-nil, append_assoc, Bytes, leb,
  if◌then◌else◌, Bool-cases, inl, inr,
}
use lau_sim.Filelogger.{
  LogLevel, level_number, Filelogger, set_log_level, print_message, logging_fun,
}

-- A call of the logger.
pub data Call : Type 0 where
  set_ll : LogLevel → Call
  log_fun : LogLevel → Bytes → Call

unfoldable pub perform : List Call → Filelogger → Filelogger
unfolding set_log_level logging_fun
perform [] s = s
perform (set_ll level ∷ cs) s = perform cs (set_log_level level s)
perform (log_fun level msg ∷ cs) s = perform cs (logging_fun level msg s)

-- A message with its level, and the level that is set when it comes.
pub record Entry : Type 0 where
  pub threshold : LogLevel
  pub level : LogLevel
  pub msg : Bytes

unfoldable pub entries : LogLevel → List Call → List Entry
entries lvl [] = []
entries lvl (set_ll level ∷ cs) = entries level cs
entries lvl (log_fun level msg ∷ cs) =
    record { threshold = lvl; level = level; msg = msg } ∷ entries lvl cs

-- The entries whose level is at least as high as the one that is set.
unfoldable pub shown : List Entry → List Entry
unfolding level_number
shown [] = []
shown (e ∷ es) =
    let rest = shown es in
    if leb (level_number e.threshold) (level_number e.level) then e ∷ rest else rest

abbrev pub print_entry : Entry → Bytes
print_entry e = print_message e.level e.msg

-- Behind any calls the file holds what it held, and then the lines of just those messages whose level
-- was at least as high as the one set at the time, in their order.
pub perform-shown :
    (cs : List Call) (s : Filelogger)
    → (perform cs s).log_file ≡ s.log_file ++ flatten (map print_entry (shown (entries s.lvl cs)))
unfolding perform shown entries flatten logging_fun set_log_level
perform-shown [] s = sym (append-nil s.log_file)
perform-shown (set_ll level ∷ cs) s = perform-shown cs (set_log_level level s)
perform-shown (log_fun level msg ∷ cs) s =
    elim (Bool-cases (leb (level_number s.lvl) (level_number level))) [
      | inl high ↦
          perform-shown cs (logging_fun level msg s)
          ∙ rw high (
              append_assoc s.log_file (print_message level msg)
                (flatten (map print_entry (shown (entries s.lvl cs)))))
      | inr low ↦ perform-shown cs (logging_fun level msg s) ∙ rw low refl
    ]
