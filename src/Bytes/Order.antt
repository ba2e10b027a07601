-- ===== src/Bytes/Order.antt =====
-- bytes.Compare is a total order: the relation that it decides, and its laws.
use nats_requeue.Prelude.{
  ◌↔◌, ◌<◌, ◌≡◌, ◌≢◌, ◌⊎◌, inr, refl, true, [], ◌∷◌, ◌++◌, Ordering, arith, length,
}
use nats_requeue.Bytes.{Bytes, compare_bytes, equal_bytes}

abbrev pub Le : Bytes → Bytes → Type 0
Le [] ys = Unit
Le (x ∷ xs) [] = ⊥
Le (x ∷ xs) (y ∷ ys) = (x < y) ⊎ ((x ≡ y) × Le xs ys)

pub Le_of_compare : (xs ys : Bytes) → compare_bytes xs ys ≢ Ordering.gt → Le xs ys
unfolding compare_bytes
Le_of_compare [] ys h = tt
Le_of_compare (x ∷ xs) [] h = absurd (h refl)
Le_of_compare (x ∷ xs) (y ∷ ys) h = ground (arith, Le_of_compare xs ys)

pub compare_of_Le : (xs ys : Bytes) → Le xs ys → compare_bytes xs ys ≢ Ordering.gt
unfolding compare_bytes
compare_of_Le [] [] h e = cc
compare_of_Le [] (y ∷ ys) h e = cc
compare_of_Le (x ∷ xs) [] h e = absurd h
compare_of_Le (x ∷ xs) (y ∷ ys) h e = ground (arith, compare_of_Le xs ys)

pub compare_bytes_refl : (xs : Bytes) → compare_bytes xs xs ≡ Ordering.eq
unfolding compare_bytes
compare_bytes_refl [] = refl
compare_bytes_refl (x ∷ xs) = ground (arith, compare_bytes_refl xs)

pub eq_of_compare : (xs ys : Bytes) → compare_bytes xs ys ≡ Ordering.eq → xs ≡ ys
unfolding compare_bytes
eq_of_compare [] [] h = refl
eq_of_compare [] (y ∷ ys) h = cc
eq_of_compare (x ∷ xs) [] h = cc
eq_of_compare (x ∷ xs) (y ∷ ys) h = ground (arith, eq_of_compare xs ys)

pub eq_of_equal : (xs ys : Bytes) → equal_bytes xs ys ≡ true → xs ≡ ys
unfolding equal_bytes
eq_of_equal xs ys h = ground (arith, eq_of_compare xs ys)

pub equal_refl : (xs : Bytes) → equal_bytes xs xs ≡ true
unfolding equal_bytes
equal_refl xs = ground (arith, compare_bytes_refl xs)

pub Le-refl : (xs : Bytes) → Le xs xs
Le-refl [] = tt
Le-refl (x ∷ xs) = inr (refl, Le-refl xs)

pub Le-trans : (xs ys zs : Bytes) → Le xs ys → Le ys zs → Le xs zs
Le-trans [] ys zs h k = tt
Le-trans (x ∷ xs) [] zs h k = absurd h
Le-trans (x ∷ xs) (y ∷ ys) [] h k = absurd k
Le-trans (x ∷ xs) (y ∷ ys) (z ∷ zs) h k = ground (arith, Le-trans xs ys zs)

pub Le_of_gt : (xs ys : Bytes) → compare_bytes xs ys ≡ Ordering.gt → Le ys xs
unfolding compare_bytes
Le_of_gt [] [] h = tt
Le_of_gt [] (y ∷ ys) h = cc
Le_of_gt (x ∷ xs) [] h = tt
Le_of_gt (x ∷ xs) (y ∷ ys) h = ground (arith, Le_of_gt xs ys)

-- The verdict on two concatenations whose heads are equally long.
abbrev pub and_then : Ordering → Ordering → Ordering
and_then Ordering.lt o = Ordering.lt
and_then Ordering.eq o = o
and_then Ordering.gt o = Ordering.gt

pub compare_bytes-append :
    (xs ys us vs : Bytes)
    → length xs ≡ length ys
    → compare_bytes (xs ++ us) (ys ++ vs) ≡ and_then (compare_bytes xs ys) (compare_bytes us vs)
unfolding compare_bytes
compare_bytes-append [] [] us vs h = refl
compare_bytes-append [] (y ∷ ys) us vs h = absurd (omega arith)
compare_bytes-append (x ∷ xs) [] us vs h = absurd (omega arith)
compare_bytes-append (x ∷ xs) (y ∷ ys) us vs h = ground (arith, compare_bytes-append xs ys us vs)

pub Le-append : (p xs ys : Bytes) → Le xs ys → Le (p ++ xs) (p ++ ys)
Le-append [] xs ys h = h
Le-append (x ∷ p) xs ys h = inr (refl, Le-append p xs ys h)

pub Le-append_cancel : (p xs ys : Bytes) → Le (p ++ xs) (p ++ ys) → Le xs ys
Le-append_cancel [] xs ys h = h
Le-append_cancel (x ∷ p) xs ys h = ground (arith, Le-append_cancel p xs ys)

pub equal_iff : (xs ys : Bytes) → (equal_bytes xs ys ≡ true) ↔ (xs ≡ ys)
equal_iff xs ys = (eq_of_equal xs ys, λ e. rw e (equal_refl ys))
