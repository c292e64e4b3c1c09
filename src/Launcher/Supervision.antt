-- ===== src/Launcher/Supervision.antt =====
-- client/launcher/launcher.c: the launcher behind the start of the client, until it ends. What `waitpid`
-- returns, and what the signal handler has set in `req_stop` then, are arguments.
use lau_sim.Base.{
  ℕ, zero, suc, ◌≡◌, ◌≢◌, refl, ap, ◌⊎◌, inl, inr, Bool, true, false, not, ◌||◌, List, [], ◌∷◌,
  ◌++◌, ◌==◌, if◌then◌else◌, arith,
}
use lau_sim.FaultManager.{Run, ok, undefined}

-- What `stat_val` says of a process.
pub data ChildStatus : Type 0 where
  with_code : ℕ → ChildStatus
  by_signal : ChildStatus

-- A call of `waitpid`, with `req_stop` behind it: it fails, or the client has ended.
pub data Wait : Type 0 where
  fails : Bool → Wait
  ends : ChildStatus → Bool → Wait

-- `pid`, the child that runs the command by `system` and has inherited the handler of SIGTERM, and `pid2`,
-- the client. The command itself is a child of `pid` and gets no signal.
pub data Target : Type 0 where
  runner client : Target

-- `WIFEXITED (stat_val)` and `WEXITSTATUS (stat_val) == 0`
abbrev pub is_success : ChildStatus → Bool
is_success (with_code code) = code == 0
is_success by_signal = false

-- The processes that get SIGTERM, in their order.
unfoldable pub stop_children : ChildStatus → Bool → List Target
stop_children status req_stop =
    if not (is_success status) || req_stop then client ∷ runner ∷ [] else runner ∷ []

-- What the launcher does with the client's end: it still waits, or it sends SIGTERM and ends. Where the
-- loop ends without one, `stat_val` has no value when it is read.
pub data Supervised : Type 0 where
  waiting : Supervised
  signalled : List Target → Supervised

unfoldable pub supervise : List Wait → Run Supervised
unfolding stop_children
supervise [] = ok waiting
supervise (ends status req_stop ∷ ws) = ok (signalled (stop_children status req_stop))
supervise (fails false ∷ ws) = supervise ws
supervise (fails true ∷ ws) = undefined

-- The calls fail without a request to stop.
abbrev pub failing : ℕ → List Wait
failing zero = []
failing (suc n) = fails false ∷ failing n

-- Why the client gets a signal, or none.
abbrev pub IsJust : ChildStatus → Bool → List Target → Type 0
IsJust status req_stop ts =
    ((ts ≡ []) × (status ≡ with_code 0) × (req_stop ≡ false))
    ⊎ ((ts ≡ client ∷ []) × ((status ≢ with_code 0) ⊎ (req_stop ≡ true)))

stop_children-IsJust :
    (status : ChildStatus) (req_stop : Bool)
    → (ts : List Target) × (stop_children status req_stop ≡ ts ++ runner ∷ [])
      × IsJust status req_stop ts
unfolding stop_children
stop_children-IsJust (with_code zero) false = ([], refl, inl (refl, refl, refl))
stop_children-IsJust (with_code zero) true = (client ∷ [], refl, inr (refl, inr refl))
stop_children-IsJust (with_code (suc n)) req_stop =
    let fails : (suc n == 0) ≡ false = ground arith in
    (client ∷ [], rw fails refl, inr (refl, inl (λ e. cc (ap is_success e))))
stop_children-IsJust by_signal req_stop = (client ∷ [], refl, inr (refl, inl (λ e. cc)))

-- The launcher ends with the first call of `waitpid` that succeeds, if no request to stop comes before: the
-- child that runs the command by `system` is sent SIGTERM, once and as the last, and the client before it
-- if it has failed or a stop is requested. A request to stop that interrupts a call is undefined behaviour.
pub supervise-stopped :
    (n : ℕ) (ws : List Wait)
    → ((status : ChildStatus) (req_stop : Bool)
        → (ts : List Target) × (supervise (failing n ++ ends status req_stop ∷ ws)
            ≡ ok (signalled (ts ++ runner ∷ [])))
          × IsJust status req_stop ts)
      × (supervise (failing n ++ fails true ∷ ws) ≡ undefined)
unfolding supervise
supervise-stopped zero ws = (
  (λ status req_stop.
      let (ts, e, j) = stop_children-IsJust status req_stop in
      (ts, ap (λ x. ok (signalled x)) e, j)),
  refl,
)
supervise-stopped (suc n) ws = supervise-stopped n ws
