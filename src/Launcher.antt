-- ===== src/Launcher.antt =====
-- client/launcher/launcher.c: the options of the launcher, and what it starts. What `getopt` finds is an
-- argument. The processes are not modelled, but for the wait in Supervision, nor what is printed.
pub mod Last
pub mod Supervision
use lau_sim.Base.{ℕ, List, [], ◌∷◌, Option, none, some, Bytes, codes, ◌==◌, if◌then◌else◌}
use lau_sim.Libc.Case.{strcase_eq}
use lau_sim.FaultManager.{Run, ok, undefined}

pub data LauMethode : Type 0 where
  mth_preload mth_priviliged : LauMethode

pub record LauOpts : Type 0 where
  pub name : Option Bytes
  pub server : Bytes
  pub port : Bytes
  pub methode : LauMethode
  pub pre_lib : Option Bytes
  pub command : Option Bytes

-- `options` at the start.
abbrev pub default_options : LauOpts
default_options = record {
  name = none;
  server = codes "localhost";
  port = codes "1883";
  methode = mth_preload;
  pre_lib = none;
  command = none;
}

abbrev pub exit_success : ℕ
exit_success = 0

abbrev pub exit_failure : ℕ
exit_failure = 1

-- The program ends, or goes on.
pub data Next (A : Type 0) : Type 0 where
  exits : ℕ → Next A
  goes : A → Next A

unfoldable pub set_methode : Bytes → LauOpts → Next LauOpts
unfolding strcase_eq
set_methode optarg o =
    if strcase_eq (codes "preload") optarg
    then goes (record o { methode = mth_preload })
    else if strcase_eq (codes "privileged") optarg
    then goes (record o { methode = mth_priviliged })
    else exits exit_failure

-- An option that is not known is only printed.
unfoldable pub set_option : ℕ → Bytes → LauOpts → Next LauOpts
unfolding set_methode
set_option optchr optarg o =
    if optchr == b'n'
    then goes (record o { name = some optarg })
    else if optchr == b's'
    then goes (record o { server = optarg })
    else if optchr == b'l'
    then goes (record o { pre_lib = some optarg })
    else if optchr == b'h'
    then exits exit_success
    else if optchr == b'p'
    then goes (record o { port = optarg })
    else if optchr == b'm'
    then set_methode optarg o
    else if optchr == b'c'
    then goes (record o { command = some optarg })
    else goes o

unfoldable pub set_options : List (ℕ × Bytes) → LauOpts → Next LauOpts
unfolding set_option
set_options [] o = goes o
set_options ((optchr, optarg) ∷ opts) o = elim (set_option optchr optarg o) [
  | exits e ↦ exits e
  | goes o' ↦ set_options opts o'
]

-- What is started: the command with its `LD_PRELOAD`, and the client with its arguments.
pub record Launch : Type 0 where
  pub ld_preload : Bytes
  pub command : Bytes
  pub client : List Bytes

-- A list of arguments ends at the first NULL.
unfoldable pub client_args : LauOpts → List Bytes
client_args o = elim o.name [
  | none ↦ codes "./client" ∷ []
  | some name ↦ codes "./client" ∷ name ∷ o.server ∷ o.port ∷ []
]

-- Where `LD_PRELOAD` is set already, `sprintf` writes to its own format.
unfoldable pub preload : Option Bytes → Bytes → Bytes → LauOpts → Run (Next Launch)
unfolding client_args
preload (some tmp) pre_lib command o = undefined
preload none pre_lib command o =
    ok (goes (record { ld_preload = pre_lib; command = command; client = client_args o }))

-- `main` behind the options; `getenv` is what `LD_PRELOAD` is set to.
unfoldable pub launch : Option Bytes → LauOpts → Run (Next Launch)
unfolding preload
launch getenv o = elim o.command [
  | none ↦ ok (exits exit_failure)
  | some command ↦ elim o.methode [
    | mth_priviliged ↦ ok (exits exit_success)
    | mth_preload ↦ elim o.pre_lib [
      | none ↦ ok (exits exit_failure)
      | some pre_lib ↦ preload getenv pre_lib command o
    ]
  ]
]

unfoldable pub main : Option Bytes → List (ℕ × Bytes) → Run (Next Launch)
unfolding set_options launch
main getenv opts = elim (set_options opts default_options) [
  | exits e ↦ ok (exits e)
  | goes o ↦ launch getenv o
]
