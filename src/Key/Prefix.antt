-- ===== src/Key/Prefix.antt =====
-- PrefixOf: the narrowing of an iteration to a prefix loses no key of the range.
use nats_requeue.Prelude.{◌≡◌, refl, Bool, true, false, [], ◌∷◌, ◌++◌, arith, ◌==◌, if◌then◌else◌}
use nats_requeue.Bytes.{Bytes}
use nats_requeue.Bytes.Order.{Le}
use nats_requeue.Key.{prefix_of}

abbrev pub IsPrefix : Bytes → Bytes → Type 0
IsPrefix [] ys = Unit
IsPrefix (x ∷ xs) [] = ⊥
IsPrefix (x ∷ xs) (y ∷ ys) = (x ≡ y) × IsPrefix xs ys

unfoldable pub has_prefix : Bytes → Bytes → Bool
has_prefix [] ys = true
has_prefix (x ∷ xs) [] = false
has_prefix (x ∷ xs) (y ∷ ys) = let rest = has_prefix xs ys in if x == y then rest else false

pub IsPrefix-append : (xs ys : Bytes) → IsPrefix xs (xs ++ ys)
IsPrefix-append [] ys = tt
IsPrefix-append (x ∷ xs) ys = (refl, IsPrefix-append xs ys)

-- Every byte string between the two ends, both included, has the prefix that PrefixOf returns.
pub prefix_of-between :
    (seek until k : Bytes) → Le seek k → Le k until → IsPrefix (prefix_of seek until) k
unfolding prefix_of
prefix_of-between [] until k lo hi = tt
prefix_of-between (x ∷ seek) [] k lo hi = tt
prefix_of-between (x ∷ seek) (y ∷ until) [] lo hi = absurd lo
prefix_of-between (x ∷ seek) (y ∷ until) (z ∷ k) lo hi =
    ground (arith, prefix_of-between seek until k)

-- Every common prefix of the two ends is a prefix of the one that PrefixOf returns.
pub prefix_of-greatest :
    (seek until p : Bytes) → IsPrefix p seek → IsPrefix p until → IsPrefix p (prefix_of seek until)
unfolding prefix_of
prefix_of-greatest seek until [] h k = tt
prefix_of-greatest [] until (x ∷ p) h k = absurd h
prefix_of-greatest (x ∷ seek) [] (z ∷ p) h k = absurd k
prefix_of-greatest (x ∷ seek) (y ∷ until) (z ∷ p) h k =
    ground (arith, prefix_of-greatest seek until p)

pub prefix_of-left : (seek until : Bytes) → IsPrefix (prefix_of seek until) seek
unfolding prefix_of
prefix_of-left [] until = tt
prefix_of-left (x ∷ seek) [] = tt
prefix_of-left (x ∷ seek) (y ∷ until) = ground (arith, prefix_of-left seek until)

pub prefix_of-right : (seek until : Bytes) → IsPrefix (prefix_of seek until) until
unfolding prefix_of
prefix_of-right [] until = tt
prefix_of-right (x ∷ seek) [] = tt
prefix_of-right (x ∷ seek) (y ∷ until) = ground (arith, prefix_of-right seek until)
