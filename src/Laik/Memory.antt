-- ===== src/Laik/Memory.antt =====
-- The memory that com/laik/laik_intf.c asks for.
use lau_sim.Base.{◌+◌, ◌≤◌, Bytes, length, codes, arith, length-append}
use lau_sim.Laik.{Allocation, client_id}

-- The text fits with its terminating NUL.
abbrev pub HasRoom : Allocation → Type 0
HasRoom a = length a.text + 1 ≤ a.size

-- Whatever the name of the host is, the id of the client is longer than the memory it is written to.
pub client_id-not-HasRoom : (hostname : Bytes) → ¬ HasRoom (client_id hostname)
unfolding client_id
client_id-not-HasRoom hostname h =
    absurd (omega (arith, length-append (codes "LAIKpart_") hostname))
