-- ===== src/Delivery/Fifo.antt =====
-- What the client writes to the fifo, the backend carries out.
use mathlib.Core.List.{flatten}
use mathlib.Core.Path.{fun_ext}
use lau_sim.Base.{
  ℕ, ◌^◌, ◌<◌, ◌≡◌, ◌≢◌, refl, ap, ◌∙◌, true, false, List, [], ◌∷◌, ◌++◌, map, append_assoc, Option,
  none, some, Bytes, codes, All, All-map, int32, arith, pos,
}
use lau_sim.Libc.Text.{Lacks, one_of, tokens, tokens-append, lines, c_str, str_eq}
use lau_sim.Libc.Number.{print_int, strtoull}
use lau_sim.Libc.Number.Chars.{IsNumeric, print_int-IsNumeric, print_int-ne-nil}
use lau_sim.Libc.Number.RoundTrip.{strtoull_number}
use lau_sim.Recording.Lines.{
  IsLine, IsPrinted, IsName-IsLine, append-IsLine, lines-printed, c_str-printed,
}
use lau_sim.Recording.Names.{numeric-IsName}
use lau_sim.Backend
use lau_sim.Backend.{
  Subsys, net, mem, pwr, Actor, Status, finished, Event, line, read_request, command, exit,
  apply_effect, select_subsys,
}
use lau_sim.Client
use lau_sim.Client.{ClientFault, print_command}

-- The names that the backend knows.
name_of : Subsys → Bytes
name_of net = codes "net"
name_of mem = codes "memory"
name_of pwr = codes "power"

-- A command: a subsystem and a severity. The power of a node has no component.
abbrev pub Command : Type 0
Command = Subsys × ℕ

abbrev pub fault_of : Command → ClientFault
fault_of (net, n) = record { component = some (codes "net"); severity = n }
fault_of (mem, n) = record { component = some (codes "memory"); severity = n }
fault_of (pwr, n) = record { component = none; severity = n }

command_line : Subsys → ℕ → Bytes
command_line sys n = name_of sys ++ b' ' ∷ print_int (int32 n)

print_command_lem :
    (sys : Subsys) (n : ℕ) → print_command (fault_of (sys, n)) ≡ command_line sys n ++ b'\n' ∷ []
unfolding print_command command_line name_of
print_command_lem net n = refl
print_command_lem mem n = refl
print_command_lem pwr n = refl

name_of-IsLine : (sys : Subsys) → IsLine (name_of sys)
unfolding name_of one_of
name_of-IsLine net = ((refl, (refl, (refl, tt))), (refl, (refl, (refl, tt))))
name_of-IsLine mem = (
  (refl, (refl, (refl, (refl, (refl, (refl, tt)))))),
  (refl, (refl, (refl, (refl, (refl, (refl, tt)))))),
)
name_of-IsLine pwr =
    ((refl, (refl, (refl, (refl, (refl, tt))))), (refl, (refl, (refl, (refl, (refl, tt))))))

name_of-Lacks : (sys : Subsys) → Lacks (codes " \n") (name_of sys)
unfolding name_of one_of
name_of-Lacks net = (refl, (refl, (refl, tt)))
name_of-Lacks mem = (refl, (refl, (refl, (refl, (refl, (refl, tt))))))
name_of-Lacks pwr = (refl, (refl, (refl, (refl, (refl, tt)))))

name_of-ne-nil : (sys : Subsys) → name_of sys ≢ []
unfolding name_of
name_of-ne-nil net = cc
name_of-ne-nil mem = cc
name_of-ne-nil pwr = cc

name_of-ne-exit : (sys : Subsys) → str_eq (name_of sys) (codes "exit") ≡ false
unfolding name_of str_eq
name_of-ne-exit net = refl
name_of-ne-exit mem = refl
name_of-ne-exit pwr = refl

select_subsys-name_of :
    (sys : Subsys) (cmd : Option Subsys) → select_subsys (name_of sys) cmd ≡ some sys
unfolding name_of select_subsys str_eq
select_subsys-name_of net cmd = refl
select_subsys-name_of mem cmd = refl
select_subsys-name_of pwr cmd = refl

numeric-Lacks : (c : ℕ) → IsNumeric c → one_of c (codes " \n") ≡ false
unfolding one_of
numeric-Lacks c h = ground arith

int32_small : (n : ℕ) → n < 2 ^ 31 → int32 n ≡ pos n
unfolding int32
int32_small n h = ground arith

command_line-IsLine : (sys : Subsys) (n : ℕ) → IsLine (command_line sys n)
unfolding command_line
command_line-IsLine sys n = append-IsLine (name_of sys) _ (name_of-IsLine sys) (
    append-IsLine (codes " ") _ (unfold one_of in ((refl, tt), (refl, tt)))
      (IsName-IsLine _ (numeric-IsName _ (print_int-IsNumeric (int32 n)))))

command-IsPrinted : (sys : Subsys) (n : ℕ) → IsPrinted (print_command (fault_of (sys, n)))
command-IsPrinted sys n = (
  command_line sys n,
  (λ s.
      ap (λ x. x ++ s) (print_command_lem sys n)
      ∙ append_assoc (command_line sys n) (codes "\n") s),
  command_line-IsLine sys n,
)

tokens-command_line :
    (sys : Subsys) (n : ℕ)
    → tokens (codes " \n") (command_line sys n ++ b'\n' ∷ [])
      ≡ name_of sys ∷ print_int (int32 n) ∷ []
unfolding command_line
tokens-command_line sys n =
    ap (tokens (codes " \n")) (append_assoc (name_of sys) (b' ' ∷ print_int (int32 n)) (codes "\n"))
    ∙ tokens-append (codes " \n") (name_of sys) (print_int (int32 n) ++ b'\n' ∷ []) b' '
        (name_of-ne-nil sys) (name_of-Lacks sys) (unfold one_of in refl)
    ∙ ap (λ ts. name_of sys ∷ ts)
        (tokens-append (codes " \n") (print_int (int32 n)) [] b'\n' (print_int-ne-nil (int32 n))
            (All-map numeric-Lacks _ (print_int-IsNumeric (int32 n))) (unfold one_of in refl)
          ∙ unfold tokens in refl)

strtoull_severity : (n : ℕ) → n < 2 ^ 31 → strtoull (print_int (int32 n)) ≡ some n
strtoull_severity n h = rw (int32_small n h) (unfold print_int in strtoull_number n (omega arith))

read_request-print_command :
    (sys : Subsys) (n : ℕ)
    → n < 2 ^ 31
    → read_request (print_command (fault_of (sys, n))) ≡ command (name_of sys) n
unfolding read_request
read_request-print_command sys n h = rw (
  c_str-printed _ (command-IsPrinted sys n),
  print_command_lem sys n,
  tokens-command_line sys n,
  name_of-ne-exit sys,
  strtoull_severity n h,
)

commands_text : List Command → Bytes
commands_text [] = codes "exit\n"
commands_text (c ∷ cs) = print_command (fault_of c) ++ commands_text cs

-- A batch behind the start is written whole.
forward_faults-commands :
    (cs ds : List Command)
    → ((Client.forward_faults true (map fault_of cs)).0 ≡ true)
      × ((Client.forward_faults true (map fault_of cs)).1 ++ commands_text ds
          ≡ commands_text (cs ++ ds))
unfolding Client.forward_faults commands_text
forward_faults-commands [] ds = (refl, refl)
forward_faults-commands (c ∷ cs) ds =
    let (synced, text) = forward_faults-commands cs ds in
    (
      synced,
      append_assoc (print_command (fault_of c)) _ (commands_text ds)
          ∙ ap (λ x. print_command (fault_of c) ++ x) text,
    )

main_loop-text :
    (css : List (List Command))
    → Client.main_loop true (map (map fault_of) css) ≡ commands_text (flatten css)
unfolding Client.main_loop flatten
main_loop-text [] = unfold commands_text in refl
main_loop-text (cs ∷ css) =
    let (synced, text) = forward_faults-commands cs (flatten css) in
    rw (synced, main_loop-text css) text

-- What is left in the fifo behind the byte that starts the application.
text_of_main :
    (start : ClientFault) (cs : List Command) (css : List (List Command))
    → Backend.init (Client.main_loop false ((start ∷ map fault_of cs) ∷ map (map fault_of) css))
      ≡ commands_text (cs ++ flatten css)
unfolding Backend.init Client.main_loop
text_of_main start cs css =
    let (synced, text) = forward_faults-commands cs (flatten css) in
    unfold Client.forward_faults in rw (synced, main_loop-text css) text

module _ {S : Type 0} (a : Actor S) where
  -- What the backend should do: all commands in their order, up to one that ends the process, and
  -- then the cleanup.
  pub carry_out : List Command → S → Status S
  carry_out [] s = finished (a.cleanup s)
  carry_out ((sys, n) ∷ cs) s = apply_effect a (carry_out cs) (a.set_state sys n s)

  main_loop-commands :
      (cs : List Command) (cmd : Option Subsys) (s : S)
      → All (λ (c : Command). c.1 < 2 ^ 31) cs
      → Backend.main_loop a (map line (lines (commands_text cs))) cmd s ≡ carry_out cs s
  unfolding carry_out commands_text Backend.main_loop
  main_loop-commands [] cmd s h = unfold lines read_request tokens c_str str_eq in refl
  main_loop-commands ((sys, n) ∷ cs) cmd s (hn, h) =
      rw
        (
          lines-printed _ (commands_text cs) (command-IsPrinted sys n),
          read_request-print_command sys n hn,
          select_subsys-name_of sys cmd,
        )
        (ap (λ k. apply_effect a k (a.set_state sys n s))
          (fun_ext (λ s'. main_loop-commands cs (some sys) s' h)))

  -- The first fault of all, whatever its severity, only starts the application. The commands behind it,
  -- in any batches, reach the subsystems in order with their severities, up to one that ends the process; at the
  -- end the backend cleans up. The severities are below 2^31.
  pub main-main :
      (start : ClientFault) (cs : List Command) (css : List (List Command)) (s : S)
      → All (λ (c : Command). c.1 < 2 ^ 31) (cs ++ flatten css)
      → Backend.main a
          (map line (
            lines
              (Backend.init (Client.main ((start ∷ map fault_of cs) ∷ map (map fault_of) css)))))
          s
        ≡ carry_out (cs ++ flatten css) s
  unfolding Client.main Backend.main
  main-main start cs css s h =
      ap (λ x. Backend.main_loop a (map line (lines x)) none s) (text_of_main start cs css)
      ∙ main_loop-commands (cs ++ flatten css) none s h
