-- ===== src/Options.antt =====
-- srv/options.h and srv/options.cpp: the options of the server. What `getopt` finds is an argument.
use lau_sim.Base.{
  ℕ, Bool, true, false, List, [], ◌∷◌, Bytes, ◌==◌, if◌then◌else◌, ℤ, pos, negsuc, u32,
}
use lau_sim.Libc.Number.{strtoull, or_zero}
use lau_sim.Filelogger.{LogLevel, ll_warning}
use lau_sim.StdoutLog.{log_level_from_int}

pub record Options : Type 0 where
  pub cfile : Bytes
  pub loglevel : LogLevel
  pub sync : Bool
  pub max_tics : ℕ

abbrev pub defaults : Options
defaults = record { cfile = []; loglevel = ll_warning; sync = false; max_tics = 0 }

-- One round of the loop: the option's letter, and `optarg`.
unfoldable pub parse_option : ℕ → Bytes → Options → ℤ × Options
unfolding strtoull log_level_from_int
parse_option opt optarg o =
    if opt == b'c'
    then (pos 0, record o { cfile = optarg })
    else if opt == b'l'
    then (pos 0, record o { loglevel = log_level_from_int (u32 (or_zero (strtoull optarg))) })
    else if opt == b's'
    then (pos 0, record o { sync = true })
    else if opt == b'n'
    then (pos 0, record o { max_tics = u32 (or_zero (strtoull optarg)) })
    else (negsuc 0, o)

-- The results of `getopt` up to its end.
unfoldable pub parse : List (ℕ × Bytes) → Options → ℤ × Options
unfolding parse_option
parse [] o = (pos 0, o)
parse ((opt, optarg) ∷ opts) o =
    let (ret, o') = parse_option opt optarg o in
    elim ret [ pos _ ↦ parse opts o' | negsuc e ↦ (negsuc e, o') ]
