-- ===== src/Recording/Tics.antt =====
-- The lines of the tics and of the faults are read back.
use lau_sim.Base.{
  ℕ, ◌+◌, ◌^◌, ◌<◌, ◌≡◌, refl, sym, ap, ◌∙◌, [], ◌∷◌, ◌++◌, append_assoc, Bytes, codes, All-map,
  All-append, u32, u64, int32, int64, arith, Option, none, some, true, false,
}
use lau_sim.FaultManager.{ok, Fault}
use lau_sim.Libc.Text.{one_of, tokens, tokens-append, strchr, strchr-append, strstr, strstr-Lacks}
use mathlib.Core.List.{concat-ne-nil}
use lau_sim.Libc.Number.{digit, print_int}
use lau_sim.Libc.Number.Chars.{IsNumeric, print_int-IsNumeric}
use lau_sim.Libc.Number.RoundTrip.{strtoull-print_int32, strtoull-print_int64}
use lau_sim.Transcribe.{print_tic, print_fault, component_text}
use lau_sim.Replay.{
  first_number, read_component, Replay, get_tic_num, read_line, add_fault, read_fault,
}
use lau_sim.Recording.Format.{IsName, IsPlainFault, IsPlainComponent, restore_fault}
use lau_sim.Recording.Names.{IsName-comma, IsName-hash, numeric-IsName}
use lau_sim.Recording.Lines.{
  IsLine, IsName-IsLine, append-IsLine, comma-IsLine, IsPrinted, c_str-printed, length-printed,
}

print_int-IsName : (k : ℕ) → IsName (print_int (int64 k))
print_int-IsName k = numeric-IsName _ (print_int-IsNumeric (int64 k))

tag-IsLine : IsLine (codes "[tic#") × IsLine (codes "]")
unfolding one_of
tag-IsLine = (
  ((refl, (refl, (refl, (refl, (refl, tt))))), (refl, (refl, (refl, (refl, (refl, tt)))))),
  ((refl, tt), (refl, tt)),
)

pub tic-IsPrinted : (k : ℕ) → IsPrinted (print_tic k)
unfolding print_tic
tic-IsPrinted k = (
  codes "[tic#" ++ (print_int (int64 k) ++ codes "]"),
  (λ s. simp append_assoc),
  append-IsLine (codes "[tic#") _ tag-IsLine.0
      (append-IsLine _ (codes "]") (IsName-IsLine _ (print_int-IsName k)) tag-IsLine.1),
)

pub strstr-print_tic :
    (k : ℕ)
    → (strstr (print_tic k) (codes "tic#") ≡ true) × (strstr (print_tic k) (codes "tic") ≡ true)
unfolding strstr print_tic
strstr-print_tic k = (refl, refl)

-- The delimiters of `get_tic_num` do not stand in a number, nor in the bracket.
lacks_marks : (c : ℕ) → IsNumeric c → one_of c (codes " #\t\n") ≡ false
unfolding one_of
lacks_marks c h = ground arith

tokens-print_tic :
    (k : ℕ)
    → tokens (codes " #\t\n") (print_tic k) ≡ codes "[tic" ∷ (print_int (int64 k) ++ codes "]") ∷ []
unfolding print_tic one_of
tokens-print_tic k =
    tokens-append (codes " #\t\n") (codes "[tic") (print_int (int64 k) ++ codes "]\n") b'#' (cc)
      (refl, (refl, (refl, (refl, tt)))) refl
    ∙ ap (λ ts. codes "[tic" ∷ ts)
        (ap (tokens (codes " #\t\n"))
            (sym (append_assoc (print_int (int64 k)) (codes "]") (codes "\n")))
          ∙ tokens-append (codes " #\t\n") (print_int (int64 k) ++ codes "]") [] b'\n'
              (concat-ne-nil b']' (print_int (int64 k)))
              (All-append _ (print_int (int64 k)) (codes "]")
                (All-map lacks_marks _ (print_int-IsNumeric (int64 k))) (refl, tt))
              refl
          ∙ unfold tokens in refl)

pub get_tic_num-print_tic : (k : ℕ) → k < 2 ^ 64 → get_tic_num (print_tic k) ≡ some k
unfolding get_tic_num
get_tic_num-print_tic k h =
    rw (
      tokens-print_tic k,
      strtoull-print_int64 k (codes "]") h (unfold digit in refl),
      first_number,
    )

pub read_line-print_tic :
    (k : ℕ) (r : Replay) → k < 2 ^ 64 → read_line (print_tic k) r ≡ ok (record r { nxt_tic = k })
unfolding read_line
read_line-print_tic k r h = rw (
  length-printed _ (tic-IsPrinted k),
  c_str-printed _ (tic-IsPrinted k),
  (strstr-print_tic k).0,
  get_tic_num-print_tic k h,
)

component_text-IsName : (c : Option Bytes) → IsPlainComponent c → IsName (component_text c)
unfolding component_text
component_text-IsName none h = tt
component_text-IsName (some c) h = h.1

pub fault-IsPrinted : (f : Fault) → IsPlainFault f → IsPrinted (print_fault f)
unfolding print_fault
fault-IsPrinted f (node, comp, _) = (
  f.node ++ b',' ∷ (component_text f.component ++ b',' ∷ print_int (int32 f.severity)),
  (λ s. simp append_assoc),
  comma-IsLine f.node _ (IsName-IsLine _ node) (
      comma-IsLine _ _ (IsName-IsLine _ (component_text-IsName f.component comp))
        (IsName-IsLine _ (numeric-IsName _ (print_int-IsNumeric (int32 f.severity))))),
)

strstr-print_fault : (f : Fault) → IsPlainFault f → strstr (print_fault f) (codes "tic#") ≡ false
unfolding print_fault
strstr-print_fault f (node, comp, _) =
    strstr-Lacks (print_fault f) (codes "tic#") b'#' (unfold one_of in refl) (
      All-append _ f.node _ (IsName-hash _ node) (
        unfold one_of in refl,
        All-append _ (component_text f.component) _
            (IsName-hash _ (component_text-IsName f.component comp))
            (
              unfold one_of in refl,
              All-append _ (print_int (int32 f.severity)) (b'\n' ∷ [])
                  (IsName-hash _ (numeric-IsName _ (print_int-IsNumeric (int32 f.severity))))
                  (unfold one_of in refl, tt),
            ),
      ))

-- An empty text stands for a NULL pointer, and is read back as one.
read_component_lem : (c : Option Bytes) → IsPlainComponent c → read_component (component_text c) ≡ c
unfolding read_component component_text
read_component_lem none h = refl
read_component_lem (some []) h = absurd (h.0 refl)
read_component_lem (some (c ∷ s)) h = refl

add_fault-restore :
    (f : Fault) (r : Replay) (v : ℕ)
    → IsPlainComponent f.component
    → u32 v ≡ f.severity
    → add_fault f.node (component_text f.component) (some v) r
      ≡ record r { id = u64 (r.id + 1); faults = r.faults ++ restore_fault (u64 (r.id + 1)) f ∷ [] }
unfolding add_fault component_text
add_fault-restore f r v h e = rw (read_component_lem f.component h, e)

read_fault-print_fault :
    (f : Fault) (r : Replay)
    → IsPlainFault f
    → read_fault (strchr (print_fault f) b',') r
      ≡ record r { id = u64 (r.id + 1); faults = r.faults ++ restore_fault (u64 (r.id + 1)) f ∷ [] }
unfolding print_fault read_fault
read_fault-print_fault f r (node, comp, sev) =
    let (v, e, e') = strtoull-print_int32 f.severity (b'\n' ∷ []) sev (unfold digit in refl) in
    rw
      (
        strchr-append f.node _ b',' (IsName-comma _ node),
        strchr-append (component_text f.component) _ b','
            (IsName-comma _ (component_text-IsName f.component comp)),
        e,
      )
      (add_fault-restore f r v comp e')

pub read_line-print_fault :
    (f : Fault) (r : Replay)
    → IsPlainFault f
    → read_line (print_fault f) r
      ≡ ok (record r {
        id = u64 (r.id + 1);
        faults = r.faults ++ restore_fault (u64 (r.id + 1)) f ∷ [];
      })
unfolding read_line
read_line-print_fault f r h = rw (
  length-printed _ (fault-IsPrinted f h),
  c_str-printed _ (fault-IsPrinted f h),
  strstr-print_fault f h,
  read_fault-print_fault f r h,
)
