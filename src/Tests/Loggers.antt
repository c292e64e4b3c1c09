-- ===== src/Tests/Loggers.antt =====
-- The file logger: plugins/filelogger/filelogger.c.
use mathlib.Core.List.{flatten}
use lau_sim.Base.{◌≡◌, refl, List, [], ◌∷◌, ◌++◌, map, codes}
use lau_sim.Filelogger.{
  Filelogger, ll_none, ll_debug, ll_info, ll_warning, ll_error, level_number, print_message, prefix,
  logging_fun, set_log_level,
}
use lau_sim.Filelogger.Messages.{
  Call, set_ll, log_fun, perform, entries, shown, print_entry, perform-shown,
}

abbrev pub calls : List Call
calls =
    log_fun ll_debug (codes "config loaded")
    ∷ set_ll ll_warning
    ∷ log_fun ll_info (codes "Tic #0")
    ∷ log_fun ll_error (codes "unable to open file")
    ∷ []

abbrev pub opened : Filelogger
opened = record { lvl = ll_none; log_file = [] }

logged :
    (perform calls opened).log_file
    ≡ codes "[DEBUG] config loaded\n" ++ codes "[ERROR] unable to open file\n"
unfolding perform level_number print_message prefix logging_fun set_log_level
logged = refl

perform-shown_example :
    (perform calls opened).log_file
    ≡ opened.log_file ++ flatten (map print_entry (shown (entries opened.lvl calls)))
perform-shown_example = perform-shown calls opened
