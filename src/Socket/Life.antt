-- ===== src/Socket/Life.antt =====
-- The descriptors and the lists of addresses that a socket of src/socket.cpp holds.
use lau_sim.Base.{
  ℕ, ◌+◌, ◌≡◌, ◌≢◌, refl, ◌∙◌, ap, ◌⊎◌, inl, inr, Bool, true, false, not, List, [], ◌∷◌, none, some,
  Bytes, if◌then◌else◌, ℤ, pos, negsuc, is_negative, ◌==ℤ◌, Bool-cases, arith, if_ind, negsuc-ne,
  ==ℤ→eq,
}
use lau_sim.Socket.{
  Lookup, found, failed, Network, Socket, fresh, set_type, destroy, connect_to, open_socket,
  connect,
}

-- The calls between the two ends of a socket.
pub data SocketCall : Type 0 where
  choose : ℤ → ℤ → ℤ → SocketCall
  dial : Bytes → Bytes → SocketCall

-- What a look-up leaves to be freed.
abbrev pub left : {A : Type 0} → Lookup A → ℕ
left (found res) = 1
left (failed (some res)) = 1
left (failed none) = 0

-- The documented behaviour of the C library: `descriptors` are those that the process has open, and
-- `lists` counts the lists of addresses that are not freed. A call changes no more than is said.
pub record IsNetwork {W A : Type 0} (network : Network W A) (descriptors : W → List ℤ)
    (lists : W → ℕ) : Type 0 where
  pub getaddrinfo :
      (addr service : Bytes) (family socktype : ℤ) (w : W)
      → (descriptors (network.getaddrinfo addr service family socktype w).1 ≡ descriptors w)
        × (lists (network.getaddrinfo addr service family socktype w).1
            ≡ lists w + left (network.getaddrinfo addr service family socktype w).0)
  pub freeaddrinfo :
      (res : A) (w : W) (k : ℕ)
      → lists w ≡ k + 1
      → (descriptors (network.freeaddrinfo res w) ≡ descriptors w)
        × (lists (network.freeaddrinfo res w) ≡ k)
  pub socket :
      (family socktype protocol : ℤ) (w : W)
      → (descriptors (network.socket family socktype protocol w).1 ≡ (
          if is_negative (network.socket family socktype protocol w).0
          then descriptors w
          else (network.socket family socktype protocol w).0 ∷ descriptors w))
        × (lists (network.socket family socktype protocol w).1 ≡ lists w)
  pub connect :
      (sd : ℤ) (res : A) (w : W)
      → (descriptors (network.connect sd res w).1 ≡ descriptors w)
        × (lists (network.connect sd res w).1 ≡ lists w)
  pub close :
      (sd : ℤ) (w : W) (ds : List ℤ)
      → descriptors w ≡ sd ∷ ds
      → (descriptors (network.close sd w) ≡ ds) × (lists (network.close sd w) ≡ lists w)

module _ {W A : Type 0} (network : Network W A) where
  unfoldable pub make_calls : List SocketCall → Socket × W → Socket × W
  unfolding set_type connect
  make_calls [] (s, w) = (s, w)
  make_calls (choose family socktype protocol ∷ rs) (s, w) =
      make_calls rs ((set_type family socktype protocol s).1, w)
  make_calls (dial addr service ∷ rs) (s, w) =
      let (err, s', w') = connect network addr service s w in make_calls rs (s', w')

  module _ (descriptors : W → List ℤ) (lists : W → ℕ)
      (law : IsNetwork network descriptors lists) where
    -- A socket without a descriptor, and one whose descriptor is the last that was opened, with the
    -- other descriptors `ds`.
    abbrev pub IsShut : List ℤ → Socket → W → Type 0
    IsShut ds s w = (s.sd ≡ negsuc 0) × (descriptors w ≡ ds)

    abbrev pub IsOpen : List ℤ → Socket → W → Type 0
    IsOpen ds s w = (is_negative s.sd ≡ false) × (descriptors w ≡ s.sd ∷ ds)

    -- The two ends of `connect`, with `k` lists of addresses.
    abbrev pub IsDialed : List ℤ → ℕ → ℤ × Socket × W → Type 0
    IsDialed ds k (err, s, w) =
        (lists w ≡ k) × (((err ≡ pos 0) × IsOpen ds s w) ⊎ ((err ≢ pos 0) × IsShut ds s w))

    connect_to-IsDialed :
        (ds : List ℤ) (k : ℕ) (res : A) (s : Socket) (w : W)
        → lists w ≡ k + 1
        → IsOpen ds s w
        → IsDialed ds k (connect_to network res s w)
    unfolding connect_to
    connect_to-IsDialed ds k res s w n (p, d) =
        let (err, w₁) = network.connect s.sd res w in
        let (d₁, n₁) = law.connect s.sd res w in
        elim (Bool-cases (err ==ℤ pos 0)) [
          | inl fine ↦
              let (d₂, n₂) = law.freeaddrinfo res w₁ k (n₁ ∙ n) in
              rw fine (n₂, inl (refl, (p, d₂ ∙ d₁ ∙ d)))
          | inr refused ↦
              let (d₂, n₂) = law.close s.sd w₁ ds (d₁ ∙ d) in
              let (d₃, n₃) = law.freeaddrinfo res (network.close s.sd w₁) k (n₂ ∙ n₁ ∙ n) in
              rw refused (n₃, inr (((λ e. cc)), (refl, d₃ ∙ d₂)))
        ]

    open_socket-IsDialed :
        (ds : List ℤ) (k : ℕ) (s : Socket) (r : Lookup A) (w : W)
        → lists w ≡ k + left r
        → IsShut ds s w
        → IsDialed ds k (open_socket network s (r, w))
    unfolding open_socket
    open_socket-IsDialed ds k s (failed none) w n (e, d) = (omega arith, inr (negsuc-ne 0, (e, d)))
    open_socket-IsDialed ds k s (failed (some res)) w n (e, d) =
        let (d₁, n₁) = law.freeaddrinfo res w k n in (n₁, inr (negsuc-ne 0, (e, d₁ ∙ d)))
    open_socket-IsDialed ds k s (found res) w n (e, d) =
        let (sd, w₁) = network.socket (network.sa_family res) s.socktype s.protocol w in
        let (d₁, n₁) = law.socket (network.sa_family res) s.socktype s.protocol w in
        let chosen : (b : Bool)
            → is_negative sd ≡ b
            → (if is_negative sd then descriptors w else sd ∷ descriptors w)
              ≡ (if b then descriptors w else sd ∷ descriptors w) =
          λ _ h. ap (λ b. if b then descriptors w else sd ∷ descriptors w) h in
        elim (Bool-cases (is_negative sd)) [
          | inl refused ↦
              let (d₂, n₂) = law.freeaddrinfo res w₁ k (n₁ ∙ n) in
              rw refused (n₂, inr ((λ z. cc), (refl, d₂ ∙ d₁ ∙ chosen true refused ∙ d)))
          | inr fine ↦ rw fine (
              connect_to-IsDialed ds k res (record s { sd = sd }) w₁ (n₁ ∙ n)
                (fine, d₁ ∙ chosen false fine ∙ ap (λ l. sd ∷ l) d))
        ]

    -- `connect` of a socket without a descriptor, whatever the library answers: the lists of addresses
    -- are freed; on success the socket has the one descriptor that was opened, and on an error none.
    pub connect-IsDialed :
        (addr service : Bytes) (ds : List ℤ) (k : ℕ) (s : Socket) (w : W)
        → lists w ≡ k
        → IsShut ds s w
        → IsDialed ds k (connect network addr service s w)
    unfolding connect
    connect-IsDialed addr service ds k s w m (e, h) =
        let (r, w₁) = network.getaddrinfo addr service s.family s.socktype w in
        let (d, n) = law.getaddrinfo addr service s.family s.socktype w in
        let unset : is_negative s.sd ≡ true = ap is_negative e in
        rw unset (open_socket-IsDialed ds k s r w₁ (n ∙ ap (λ x. x + left r) m) (e, d ∙ h))

    -- A socket between two calls, over the descriptors and the lists of before.
    abbrev pub Holds : List ℤ → ℕ → Socket × W → Type 0
    Holds ds k (s, w) = (lists w ≡ k) × (IsShut ds s w ⊎ IsOpen ds s w)

    set_type-Holds :
        (family socktype protocol : ℤ) (ds : List ℤ) (k : ℕ) (s : Socket) (w : W)
        → Holds ds k (s, w)
        → Holds ds k ((set_type family socktype protocol s).1, w)
    unfolding set_type
    set_type-Holds family socktype protocol ds k s w h =
        if_ind (λ (r : Bool × Socket). Holds ds k (r.1, w)) (not (s.sd ==ℤ negsuc 0)) h h

    connect-Holds :
        (addr service : Bytes) (ds : List ℤ) (k : ℕ) (s : Socket) (w : W)
        → Holds ds k (s, w)
        → Holds ds k ((connect network addr service s w).1, (connect network addr service s w).2)
    unfolding connect
    connect-Holds addr service ds k s w (n, inr (p, d)) = rw p (n, inr (p, d))
    connect-Holds addr service ds k s w (n, inl h) =
        let (m, ends) = connect-IsDialed addr service ds k s w n h in
        (m, elim ends [ inl (_, fine) ↦ inr fine | inr (_, shut) ↦ inl shut ])

    make_calls-Holds :
        (rs : List SocketCall) (ds : List ℤ) (k : ℕ) (s : Socket) (w : W)
        → Holds ds k (s, w)
        → Holds ds k (make_calls rs (s, w))
    unfolding make_calls
    make_calls-Holds [] ds k s w h = h
    make_calls-Holds (choose family socktype protocol ∷ rs) ds k s w h =
        make_calls-Holds rs ds k _ w (set_type-Holds family socktype protocol ds k s w h)
    make_calls-Holds (dial addr service ∷ rs) ds k s w h =
        make_calls-Holds rs ds k _ _ (connect-Holds addr service ds k s w h)

    destroyed :
        (ds : List ℤ) (k : ℕ) (s : Socket) (w : W)
        → Holds ds k (s, w)
        → (lists (destroy network s w) ≡ k)
          × (descriptors (destroy network s w) ≡ (if s.sd ==ℤ pos 0 then pos 0 ∷ ds else ds))
    unfolding destroy
    destroyed ds k s w (n, inl (e, d)) = rw e (n, d)
    destroyed ds k s w (n, inr (p, d)) = elim (Bool-cases (s.sd ==ℤ pos 0)) [
      | inl first ↦ rw (p, first) (n, d ∙ ap (λ z. z ∷ ds) (==ℤ→eq s.sd (pos 0) first))
      | inr other ↦ let (d₁, n₁) = law.close s.sd w ds d in rw (p, other) (n₁ ∙ n, d₁)
    ]

    -- The life of a socket that is made, set and connected any number of times, and destroyed: the lists
    -- of addresses are all freed, and the descriptors that are open are those of before, unless the
    -- socket has descriptor 0, which then stays open.
    pub make_calls-destroy :
        (rs : List SocketCall) (w : W)
        → (s : Socket) × (w' : W) × (make_calls rs (fresh, w) ≡ (s, w'))
          × (lists (destroy network s w') ≡ lists w)
          × (descriptors (destroy network s w')
              ≡ (if s.sd ==ℤ pos 0 then pos 0 ∷ descriptors w else descriptors w))
    make_calls-destroy rs w =
        let (s, w') = make_calls rs (fresh, w) in
        let held = make_calls-Holds rs (descriptors w) (lists w) fresh w (refl, inl (refl, refl)) in
        let (n, d) = destroyed (descriptors w) (lists w) s w' held in (s, w', refl, n, d)
