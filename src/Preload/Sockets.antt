-- ===== src/Preload/Sockets.antt =====
-- Searching the vector of sockets of client/src/preload.c, and taking an entry out.
use lau_sim.Base.{
  ==ℤ_comm, ◌≡◌, refl, sym, ap, inl, inr, false, ◌||◌, List, [], ◌∷◌, ◌++◌, ℤ, ◌==ℤ◌, ==ℤ→eq,
  Bool-cases, arith,
}
use lau_sim.Preload.Defs.{find_sock, remove_sock}

-- The vector holds no socket twice.
abbrev pub IsDistinct : List ℤ → Type 0
IsDistinct [] = Unit
IsDistinct (x ∷ xs) = (find_sock x xs ≡ false) × IsDistinct xs

pub find_sock-append :
    (z : ℤ) (xs ys : List ℤ) → find_sock z (xs ++ ys) ≡ (find_sock z xs || find_sock z ys)
unfolding find_sock
find_sock-append z [] ys = refl
find_sock-append z (x ∷ xs) ys = ground (arith, find_sock-append z xs ys)

pub append_one-IsDistinct :
    (z : ℤ) (xs : List ℤ) → find_sock z xs ≡ false → IsDistinct xs → IsDistinct (xs ++ z ∷ [])
unfolding find_sock
append_one-IsDistinct z [] h d = (refl, tt)
append_one-IsDistinct z (x ∷ xs) h (hx, d) = (
  ground (arith, find_sock-append x xs (z ∷ []), ==ℤ_comm x z),
  append_one-IsDistinct z xs (ground arith) d,
)

pub find_sock-remove_self :
    (z : ℤ) (xs : List ℤ) → IsDistinct xs → find_sock z (remove_sock z xs) ≡ false
unfolding find_sock remove_sock
find_sock-remove_self z [] d = refl
find_sock-remove_self z (x ∷ xs) (hx, d) = elim (Bool-cases (x ==ℤ z)) [
  | inl same ↦ rw same (rw (==ℤ→eq x z same) at hx)
  | inr other ↦ rw other (rw other (find_sock-remove_self z xs d))
]

pub find_sock-remove_ne :
    (z w : ℤ) (xs : List ℤ) → (z ==ℤ w) ≡ false → find_sock z (remove_sock w xs) ≡ find_sock z xs
unfolding find_sock remove_sock
find_sock-remove_ne z w [] h = refl
find_sock-remove_ne z w (x ∷ xs) h = elim (Bool-cases (x ==ℤ w)) [
  | inl same ↦ rw (same, ap (λ y. y ==ℤ z) (==ℤ→eq x w same), sym (==ℤ_comm z w), h)
  | inr other ↦ rw other (ap (λ b. x ==ℤ z || b) (find_sock-remove_ne z w xs h))
]

find_sock-remove_false :
    (z w : ℤ) (xs : List ℤ) → find_sock z xs ≡ false → find_sock z (remove_sock w xs) ≡ false
unfolding find_sock remove_sock
find_sock-remove_false z w [] h = refl
find_sock-remove_false z w (x ∷ xs) h = ground (arith, find_sock-remove_false z w xs)

pub remove_sock-IsDistinct : (z : ℤ) (xs : List ℤ) → IsDistinct xs → IsDistinct (remove_sock z xs)
unfolding remove_sock
remove_sock-IsDistinct z [] d = tt
remove_sock-IsDistinct z (x ∷ xs) (hx, d) = elim (Bool-cases (x ==ℤ z)) [
  | inl same ↦ rw same d
  | inr other ↦ rw other (find_sock-remove_false x z xs hx, remove_sock-IsDistinct z xs d)
]
