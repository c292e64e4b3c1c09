-- ===== src/Socket.antt =====
-- src/socket.h and src/socket.cpp: a socket of the process. The functions of the C library are
-- arguments. What goes to the log is not modelled.
pub mod Life
use lau_sim.Base.{
  Bool, true, false, not, Option, none, some, Bytes, if◌then◌else◌, ℤ, pos, negsuc, is_negative,
  ◌==ℤ◌,
}

-- What `getaddrinfo` leaves in `res`: a list of addresses, whose type is `A`; or an error, with the
-- list that it leaves then, if there is one.
pub data Lookup (A : Type 0) : Type 0 where
  found : A → Lookup A
  failed : Option A → Lookup A

-- What the class calls of the C library, whose state is `W`. `getaddrinfo` gets the address, the service,
-- the family and the type.
pub record Network (W A : Type 0) : Type 0 where
  pub getaddrinfo : Bytes → Bytes → ℤ → ℤ → W → Lookup A × W
  pub freeaddrinfo : A → W → W
  pub sa_family : A → ℤ
  pub socket : ℤ → ℤ → ℤ → W → ℤ × W
  pub connect : ℤ → A → W → ℤ × W
  pub close : ℤ → W → W
  pub dup : ℤ → W → ℤ × W

pub record Socket : Type 0 where
  pub sd : ℤ
  pub family : ℤ
  pub socktype : ℤ
  pub protocol : ℤ

abbrev pub af_unspec : ℤ
af_unspec = pos 0

abbrev pub sock_stream : ℤ
sock_stream = pos 1

-- `Socket::Socket ()`
abbrev pub fresh : Socket
fresh = record { sd = negsuc 0; family = af_unspec; socktype = sock_stream; protocol = pos 0 }

unfoldable pub set_type : ℤ → ℤ → ℤ → Socket → Bool × Socket
set_type family socktype protocol s =
    if not (s.sd ==ℤ negsuc 0)
    then (false, s)
    else (true, record s { family = family; socktype = socktype; protocol = protocol })

module _ {W A : Type 0} (network : Network W A) where
  -- `Socket::Socket (const Socket &)`: `sd` is the value of `dup (sock.sd) < 0`. `none` is the
  -- exception.
  unfoldable pub copy : Socket → W → Option Socket × W
  copy sock w =
      let (ret, w') = network.dup sock.sd w in
      (if is_negative ret then none else some (record sock { sd = pos 0 }), w')

  -- `Socket::~Socket`
  unfoldable pub destroy : Socket → W → W
  destroy s w = if is_negative s.sd then w else if s.sd ==ℤ pos 0 then w else network.close s.sd w

  -- `connect` behind `socket`, which has set `sd`.
  unfoldable pub connect_to : A → Socket → W → ℤ × Socket × W
  connect_to res s w =
      let (err, w₁) = network.connect s.sd res w in
      if not (err ==ℤ pos 0)
      then (err, record s { sd = negsuc 0 }, network.freeaddrinfo res (network.close s.sd w₁))
      else (pos 0, s, network.freeaddrinfo res w₁)

  -- `connect` behind `getaddrinfo`.
  unfoldable pub open_socket : Socket → Lookup A × W → ℤ × Socket × W
  unfolding connect_to
  open_socket s (failed none, w) = (negsuc 0, s, w)
  open_socket s (failed (some res), w) = (negsuc 0, s, network.freeaddrinfo res w)
  open_socket s (found res, w) =
      let (sd, w₁) = network.socket (network.sa_family res) s.socktype s.protocol w in
      if is_negative sd
      then (sd, record s { sd = negsuc 0 }, network.freeaddrinfo res w₁)
      else connect_to res (record s { sd = sd }) w₁

  -- `Socket::connect`
  unfoldable pub connect : Bytes → Bytes → Socket → W → ℤ × Socket × W
  unfolding open_socket
  connect addr service s w =
      if not (is_negative s.sd)
      then (negsuc 0, s, w)
      else open_socket s (network.getaddrinfo addr service s.family s.socktype w)
