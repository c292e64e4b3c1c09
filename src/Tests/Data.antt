-- ===== src/Tests/Data.antt =====
-- The data of the tests: a recording with numbers in other bases and with lines that are skipped, an
-- allocator that grants everything, and a generator of random numbers.
use lau_sim.Base.{
  ℕ, ◌+◌, ◌*◌, ◌%◌, Bool, true, List, [], ◌∷◌, ◌++◌, none, some, Bytes, codes, pos, ◌≡◌, refl, ◌≢◌,
  not, ◌&&◌, arith,
}
use lau_sim.Libc.Text.{one_of, Lacks}
use lau_sim.Recording.Format.{reserved, IsLabel}
use lau_sim.FaultManager.{Node, Fault, uniform_node}
use lau_sim.Replay.{Replay}

abbrev pub grants : ℕ → ℕ → Bool
grants n size = true

abbrev pub grants_all : (n size : ℕ) → grants n size ≡ true
grants_all n size = refl

abbrev pub grants_one : ℕ → Bool
grants_one n = true

abbrev pub grants_one_all : (n : ℕ) → grants_one n ≡ true
grants_one_all n = refl

abbrev pub rand : ℕ → ℕ × ℕ
rand g = (g, (g * 5 + 1000) % 2147483648)

abbrev pub recording : Bytes
recording =
    codes "0x2\n"
    ++ (codes "alpha,2,net,memory\n"
        ++ (codes "beta,0\n"
            ++ (codes "[tic#0]\n"
                ++ (codes "alpha,net,0x10\n"
                    ++ (codes "no fault\n"
                        ++ (codes "[tic#2]\n"
                            ++ (codes "beta,,7\n" ++ codes "alpha,memory,100")))))))

abbrev pub nodes : List Node
nodes =
    record {
      name = codes "alpha";
      id = pos 0;
      node_type = uniform_node;
      state = 0;
      components =
          record { name = codes "net"; severity = 0 }
          ∷ record { name = codes "memory"; severity = 0 }
          ∷ [];
    }
    ∷ record {
      name = codes "beta";
      id = pos 1;
      node_type = uniform_node;
      state = 0;
      components = [];
    }
    ∷ []

abbrev pub faults : List (List Fault)
faults =
    (record {
      id = pos 1;
      name = none;
      component = some (codes "net");
      node = codes "alpha";
      severity = 16;
    }
      ∷ [])
    ∷ []
    ∷ (record { id = pos 2; name = none; component = none; node = codes "beta"; severity = 7 }
        ∷ record {
          id = pos 3;
          name = none;
          component = some (codes "memory");
          node = codes "alpha";
          severity = 100;
        }
        ∷ [])
    ∷ []

-- The variables of the replay plugin behind three tics of the recording.
abbrev pub replayed : Replay
replayed = record {
  file = [];
  tic_num = 3;
  nxt_tic = 2;
  id = 3;
  done = true;
  nodes = nodes;
  faults =
      record { id = pos 2; name = none; component = none; node = codes "beta"; severity = 7 }
      ∷ record {
        id = pos 3;
        name = none;
        component = some (codes "memory");
        node = codes "alpha";
        severity = 100;
      }
      ∷ [];
}

-- Whether a text lacks some bytes.
unfoldable pub lacks : Bytes → Bytes → Bool
unfolding one_of
lacks ds [] = true
lacks ds (c ∷ s) = not (one_of c ds) && lacks ds s

pub lacks-Lacks : (ds s : Bytes) → lacks ds s ≡ true → Lacks ds s
unfolding lacks
lacks-Lacks ds [] h = tt
lacks-Lacks ds (c ∷ s) h = (ground arith, lacks-Lacks ds s (ground arith))

pub label : (s : Bytes) → s ≢ [] → lacks reserved s ≡ true → IsLabel s
label s n h = (n, lacks-Lacks reserved s h)
