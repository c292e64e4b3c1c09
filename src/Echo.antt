-- ===== src/Echo.antt =====
-- plugins/echo/echo.h and plugins/echo/echo.c: a communication plugin that prints. The log is not
-- modelled.
use lau_sim.Base.{
  ℕ, ◌≡◌, ◌∙◌, sym, not, List, [], ◌∷◌, ◌++◌, map, append-nil, append_assoc, Option, none, some,
  Bytes, codes, ◌==◌, if◌then◌else◌, ℤ, pos, int32, bit_or,
}
use mathlib.Core.List.{flatten}
use lau_sim.Libc.Text.{c_str}
use lau_sim.Libc.Number.{print_int}
use lau_sim.FaultManager.{PluginManagerInterface, pl_intf_version}
use lau_sim.PluginManager.{pl_com_actor, pl_com_extern}
use lau_sim.Server.{Notice}
use lau_sim.Com.{Com, com_none}
use lau_sim.Com.Dispatch.{notified}

-- `echo_plugin`, but for its functions.
abbrev pub echo_type : ℕ
echo_type = bit_or pl_com_actor pl_com_extern

-- The line of `notify_fail`; `%d` at an `unsigned`.
unfoldable pub fail_line : Bytes → Option Bytes → ℕ → Bytes
fail_line node component sev =
    codes "Node \""
    ++ (node
        ++ (elim component [
          | some c ↦
              codes "\" Component \""
              ++ (c ++ (codes "\" failed with severity " ++ print_int (int32 sev)))
          | none ↦ codes "\" " ++ (if sev == 0 then codes "recovered" else codes "failed")
        ]
            ++ b'\n' ∷ []))

-- What is printed so far is the state.
unfoldable pub notify_fail : Bytes → Option Bytes → ℕ → Bytes → ℤ × Bytes
unfolding fail_line
notify_fail node component sev out = (pos 0, out ++ fail_line node component sev)

unfoldable pub notify_extern : Bytes → Bytes → ℤ × Bytes
unfolding c_str
notify_extern msg out = (pos 0, out ++ (codes "Node Failed: " ++ (c_str msg ++ b'\n' ∷ [])))

-- `echo_com`
abbrev pub echo_com : {C : Type 0} → Com Bytes C
echo_com = record {
  capabilities = com_none;
  notify_fail = notify_fail;
  notify_extern = notify_extern;
  set_callback = none;
}

-- What is printed, and the manager; the result of the registration is not read.
unfoldable pub init : {M : Type 0} → PluginManagerInterface M → Bytes → M → ℤ × Bytes × M
init i out m =
    if not (i.version == pl_intf_version)
    then (pos 1, out ++ codes "[ECHO] Plugin interface version missmatch\n", m)
    else (pos 0, out, (i.register_plugin (codes "echo") m).1)

abbrev line_of : Notice → Bytes
line_of n = fail_line n.target n.component n.severity

-- The plugin prints one line for each call of `notify_fail`, in their order.
pub notified-fail_line :
    (C : Type 0) (ns : List Notice) (out : Bytes)
    → notified (echo_com {C = C}) ns out
      ≡ out ++ flatten (map (λ (n : Notice). fail_line n.target n.component n.severity) ns)
unfolding notified notify_fail flatten
notified-fail_line C [] out = sym (append-nil out)
notified-fail_line C (n ∷ ns) out =
    notified-fail_line C ns (out ++ line_of n) ∙ append_assoc out (line_of n) _
