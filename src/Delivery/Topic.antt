-- ===== src/Delivery/Topic.antt =====
-- What plugins/mosquitto/com_mosquitto.cpp publishes for a fault, client/src/mqtt.c reads, and hands on
-- in the order of its arrival.
use lau_sim.Base.{
  ℕ, ◌*◌, ◌^◌, ◌%◌, ◌<◌, ◌≤◌, ◌≡◌, ◌≢◌, refl, ap, ◌∙◌, true, false, List, [], ◌∷◌, ◌++◌, append-nil,
  Option, none, some, Bytes, codes, All, All-append, All-map, arith,
}
use lau_sim.Libc.Text.{tokens-word, Lacks, one_of, tokens, tokens-append, c_str_lem}
use lau_sim.Libc.Number.{print_hex}
use lau_sim.Libc.Number.Hex.{strtoull-print_hex, print_hex-ne-zero}
use lau_sim.Mosquitto.{notify_fail, component_topic}
use lau_sim.Mqtt.{third, Message, Mqtt, sizeof_fault, read_fault}

u32_small : (n : ℕ) → n < 2 ^ 32 → n % 2 ^ 32 ≡ n
u32_small n h = omega arith

-- A name that can be a part of a topic.
abbrev pub IsTopicName : Bytes → Type 0
IsTopicName s = (s ≢ []) × Lacks (0 ∷ b'/' ∷ []) s

abbrev pub IsTopicComponent : Option Bytes → Type 0
IsTopicComponent none = Unit
IsTopicComponent (some c) = IsTopicName c

lacks_slash : (c : ℕ) → one_of c (0 ∷ b'/' ∷ []) ≡ false → one_of c (codes "/") ≡ false
unfolding one_of
lacks_slash c h = ground arith

lacks_nul : (c : ℕ) → one_of c (0 ∷ b'/' ∷ []) ≡ false → one_of c (0 ∷ []) ≡ false
unfolding one_of
lacks_nul c h = ground arith

pos_lacks_nul : (c : ℕ) → 0 < c → one_of c (0 ∷ []) ≡ false
unfolding one_of
pos_lacks_nul c h = ground arith

envelope : (Lacks (codes "/") (codes "envelope")) × (Lacks (0 ∷ []) (codes "envelope/"))
unfolding one_of
envelope = (
  (refl, (refl, (refl, (refl, (refl, (refl, (refl, (refl, tt)))))))),
  (refl, (refl, (refl, (refl, (refl, (refl, (refl, (refl, (refl, tt))))))))),
)

tokens-topic :
    (node : Bytes) (cmp : Option Bytes)
    → IsTopicName node
    → IsTopicComponent cmp
    → tokens (codes "/") (codes "envelope/" ++ (node ++ component_topic cmp))
      ≡ codes "envelope" ∷ node ∷ (elim cmp [ none ↦ [] | some c ↦ c ∷ [] ])
unfolding component_topic
tokens-topic node none (ne, h) k =
    tokens-append (codes "/") (codes "envelope") (node ++ []) b'/' (cc) envelope.0
      (unfold one_of in refl)
    ∙ ap (λ ts. codes "envelope" ∷ ts)
        (ap (tokens (codes "/")) (append-nil node)
          ∙ tokens-word (codes "/") node ne (All-map lacks_slash node h))
tokens-topic node (some c) (ne, h) (nc, k) =
    tokens-append (codes "/") (codes "envelope") (node ++ b'/' ∷ c) b'/' (cc) envelope.0
      (unfold one_of in refl)
    ∙ ap (λ ts. codes "envelope" ∷ ts)
        (tokens-append (codes "/") node c b'/' ne (All-map lacks_slash node h)
            (unfold one_of in refl)
          ∙ ap (λ ts. node ∷ ts) (tokens-word (codes "/") c nc (All-map lacks_slash c k)))

topic-Lacks :
    (node : Bytes) (cmp : Option Bytes)
    → IsTopicName node
    → IsTopicComponent cmp
    → Lacks (0 ∷ []) (codes "envelope/" ++ (node ++ component_topic cmp))
unfolding component_topic
topic-Lacks node none (ne, h) k =
    All-append _ (codes "envelope/") _ envelope.1
      (All-append _ node [] (All-map lacks_nul node h) tt)
topic-Lacks node (some c) (ne, h) (nc, k) = All-append _ (codes "envelope/") _ envelope.1 (
    All-append _ node (b'/' ∷ c) (All-map lacks_nul node h)
      (unfold one_of in refl, All-map lacks_nul c k))

payload-Lacks : (n : ℕ) → Lacks (0 ∷ []) (codes "0x" ++ print_hex n)
payload-Lacks n = (
  unfold one_of in refl,
  (unfold one_of in refl, All-map pos_lacks_nul (print_hex n) (print_hex-ne-zero n)),
)

third_lem :
    (node : Bytes) (cmp : Option Bytes)
    → third (codes "envelope" ∷ node ∷ (elim cmp [ none ↦ [] | some c ↦ c ∷ [] ])) ≡ cmp
unfolding third
third_lem node none = refl
third_lem node (some c) = refl

-- A fault that the server's plugin publishes is read by the client with the same component, or none,
-- and the same severity, an `unsigned`, if the names are parts of a topic.
pub read_fault-notify_fail :
    (node : Bytes) (cmp : Option Bytes) (severity : ℕ)
    → IsTopicName node
    → IsTopicComponent cmp
    → severity < 2 ^ 32
    → (m : Message) × (notify_fail true node cmp severity ≡ some m)
      × (read_fault m ≡ record { component = cmp; severity = severity })
unfolding notify_fail read_fault
read_fault-notify_fail node cmp severity h k l = (
  _,
  refl,
  rw
      (
        c_str_lem _ (topic-Lacks node cmp h k),
        tokens-topic node cmp h k,
        third_lem node cmp,
        c_str_lem _ (payload-Lacks severity),
        strtoull-print_hex severity (omega arith),
      )
      (ap (λ n. record { component = cmp; severity = n }) (u32_small severity l)),
)

-- Each call delivers a message or more.
abbrev pub IsBusy : List (List Message) → Type 0
IsBusy = All (λ ms. ms ≢ [])

-- All messages of the calls, in the order of their arrival.
unfoldable pub arrived : List (List Message) → List Message
arrived [] = []
arrived (ms ∷ mss) = ms ++ arrived mss

module _ (room : ℕ → ℕ) where
  -- The blocks of up to `k` faults hold them, though only a byte for each is requested.
  abbrev pub IsRoomy : ℕ → Type 0
  IsRoomy k = (n : ℕ) → n ≤ k → sizeof_fault * n ≤ room n
