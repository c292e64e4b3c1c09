-- ===== src/Tests/Systems.antt =====
-- The sockets of src/socket.cpp and the life of the backends, client/src/backend.c and client/src/preload.c,
-- over systems that count what is open.
use lau_sim.Base.{
  ℕ, ◌+◌, ◌-◌, ◌≡◌, refl, Bool, true, false, List, [], ◌∷◌, none, some, Bytes, codes, if◌then◌else◌,
  ℤ, pos, negsuc, ◌==ℤ◌, arith,
}
use lau_sim.Backend.{Event, line, close_request}
use lau_sim.Backend.Start.{Files}
use lau_sim.Preload
use lau_sim.Preload.Start.{System}
use lau_sim.Socket.{Lookup, found, failed, Network, Socket, fresh, destroy}
use lau_sim.Socket.Life.{left, IsNetwork, SocketCall, choose, dial, make_calls, make_calls-destroy}

record World : Type 0 where
  descriptors : List ℤ
  lists : ℕ

-- An address without a name is not found; a service without a name refuses.
abbrev look_up : Bytes → Bytes → ℤ → ℤ → World → Lookup ℕ × World
look_up [] service family socktype w = (failed none, w)
look_up (c ∷ addr) [] family socktype w = (found 1, record w { lists = w.lists + 1 })
look_up (c ∷ addr) (d ∷ service) family socktype w = (found 0, record w { lists = w.lists + 1 })

abbrev rest : List ℤ → List ℤ
rest [] = []
rest (d ∷ ds) = ds

abbrev network : Network World ℕ
network = record {
  getaddrinfo = look_up;
  freeaddrinfo = λ res w. record w { lists = w.lists - 1 };
  sa_family = λ res. pos 2;
  socket = λ family socktype protocol w. (pos 3, record w { descriptors = pos 3 ∷ w.descriptors });
  connect = λ sd res w. (pos res, w);
  close = λ sd w. record w { descriptors = rest w.descriptors };
  dup = λ sd w. (pos 4, record w { descriptors = pos 4 ∷ w.descriptors });
}

look_up-IsNetwork :
    (addr service : Bytes) (family socktype : ℤ) (w : World)
    → ((look_up addr service family socktype w).1.descriptors ≡ w.descriptors)
      × ((look_up addr service family socktype w).1.lists
          ≡ w.lists + left (look_up addr service family socktype w).0)
look_up-IsNetwork [] service family socktype w = (refl, omega arith)
look_up-IsNetwork (c ∷ addr) [] family socktype w = (refl, refl)
look_up-IsNetwork (c ∷ addr) (d ∷ service) family socktype w = (refl, refl)

network-IsNetwork : IsNetwork network (λ w. w.descriptors) (λ w. w.lists)
network-IsNetwork = record {
  getaddrinfo = look_up-IsNetwork;
  freeaddrinfo = λ res w k e. (refl, omega arith);
  socket = λ family socktype protocol w. (refl, refl);
  connect = λ sd res w. (refl, refl);
  close = λ sd w ds e. (λ i. rest (e i), refl);
}

abbrev calls : List SocketCall
calls =
    dial (codes "localhost") []
    ∷ choose (pos 2) (pos 1) (pos 0)
    ∷ dial (codes "localhost") (codes "80")
    ∷ dial (codes "localhost") (codes "81")
    ∷ []

abbrev at_start : World
at_start = record { descriptors = pos 1 ∷ pos 0 ∷ []; lists = 0 }

make_calls-destroy_example :
    (s : Socket) × (w : World) × (make_calls network calls (fresh, at_start) ≡ (s, w))
    × ((destroy network s w).lists ≡ 0)
    × ((destroy network s w).descriptors
        ≡ (if s.sd ==ℤ pos 0 then pos 0 ∷ at_start.descriptors else at_start.descriptors))
make_calls-destroy_example =
    make_calls-destroy network (λ w. w.descriptors) (λ w. w.lists) network-IsNetwork calls at_start

-- Whether the file of the fifo is there, and the open streams.
record Place : Type 0 where
  there : Bool
  streams : ℕ

abbrev files : Files Place
files = record {
  mkfifo = λ w. (if w.there then negsuc 0 else pos 0, record w { there = true });
  fopen = λ w. (true, record w { streams = w.streams + 1 });
  fgetc = λ w. w;
  fclose = λ w. record w { streams = w.streams - 1 };
  unlink = λ w. (pos 0, record w { there = false });
}

abbrev empty_place : Place
empty_place = record { there = false; streams = 0 }

abbrev events : List Event
events = line (codes "net 1\n") ∷ close_request ∷ []

-- A system in which all is found.
abbrev sys : System Place Bytes
sys = record {
  files = files;
  pipe = λ w. (some (pos 3, pos 4), w);
  dlsym = λ name w. (some name, w);
  create_thread = λ w. (true, w);
  write = λ fd text w. w;
  join = λ w. w;
  call_close = λ h fd w. w;
}
