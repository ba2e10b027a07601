-- ===== src/QueueKey/Prefix.antt =====
-- PrefixOf of internal/queue/key.go, which Range and refreshStats call: a loop over indexes. Its text
-- is that of internal/key/key.go, which the other modules use.
use mathlib.Core.List.{append_assoc, append-nil}
use nats_requeue.Prelude.{
  ℕ, zero, suc, Bool-cases, [], ◌∷◌, ◌++◌, Option, none, some, ◌≡◌, refl, sym, ap, ◌∙◌, inl, inr,
  length, drop, get_elem?, get_elem?-drop, ltb, ◌==◌, if◌then◌else◌, arith,
}
use nats_requeue.Bytes.{Bytes}
use nats_requeue.Key

unfoldable pub minimum_length : Bytes → Bytes → ℕ
minimum_length seek until = if ltb (length until) (length seek) then length until else length seek

-- With `n` rounds left, at the index `i`. `none` is the panic of an index out of range.
unfoldable pub prefix_loop : ℕ → ℕ → Bytes → Bytes → Bytes → Option Bytes
prefix_loop zero i seek until prefix = some prefix
prefix_loop (suc n) i seek until prefix =
    let rest = λ (x : ℕ). prefix_loop n (suc i) seek until (prefix ++ x ∷ []) in
    elim (get_elem? seek i) [
      | none ↦ none
      | some x ↦ elim (get_elem? until i) [
        | none ↦ none
        | some y ↦ if x == y then rest x else some prefix
      ]
    ]

unfoldable pub prefix_of : Bytes → Bytes → Option Bytes
unfolding prefix_loop minimum_length
prefix_of seek until = prefix_loop (minimum_length seek until) 0 seek until []

loop-prefix_of :
    (xs ys seek until prefix : Bytes) (n i : ℕ)
    → drop i seek ≡ xs
    → drop i until ≡ ys
    → n ≡ minimum_length xs ys
    → prefix_loop n i seek until prefix ≡ some (prefix ++ Key.prefix_of xs ys)
unfolding prefix_loop minimum_length Key.prefix_of
loop-prefix_of [] ys seek until prefix zero i a b e = ap some (sym (append-nil prefix))
loop-prefix_of [] ys seek until prefix (suc n) i a b e = absurd (ground (arith, e))
loop-prefix_of (x ∷ xs) [] seek until prefix zero i a b e = ap some (sym (append-nil prefix))
loop-prefix_of (x ∷ xs) [] seek until prefix (suc n) i a b e = absurd (ground (arith, e))
loop-prefix_of (x ∷ xs) (y ∷ ys) seek until prefix zero i a b e = absurd (ground (arith, e))
loop-prefix_of (x ∷ xs) (y ∷ ys) seek until prefix (suc n) i a b e =
    let (at_seek, a') = get_elem?-drop i seek x xs a in
    let (at_until, b') = get_elem?-drop i until y ys b in
    let next =
      loop-prefix_of xs ys seek until (prefix ++ x ∷ []) n (suc i) a' b' (ground (arith, e))
      ∙ ap some (append_assoc prefix (x ∷ []) (Key.prefix_of xs ys)) in
    elim (Bool-cases (x == y)) [
      | inl s ↦ ground (arith, at_seek, at_until, s, next)
      | inr s ↦ ground (arith, at_seek, at_until, s, append-nil prefix)
    ]

-- The loop reads no index out of range, and what it returns is the common prefix as the recursion of
-- Key.prefix_of computes it.
pub prefix_of_lem : (seek until : Bytes) → prefix_of seek until ≡ some (Key.prefix_of seek until)
unfolding prefix_of
prefix_of_lem seek until =
    loop-prefix_of seek until seek until [] (minimum_length seek until) 0 refl refl refl
