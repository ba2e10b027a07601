-- ===== src/Reaper/Pairs.antt =====
-- KeyToList: the pairs that it makes say what the database holds, and leave no live key out.
use nats_requeue.Prelude.{
  false, List, [], ◌∷◌, ◌++◌, Option, none, some, ◌≡◌, ◌⊎◌, inl, inr, sym, ◌∙◌, ap, All, Bool-cases,
  arith,
}
use nats_requeue.Bytes.{Bytes, equal_bytes}
use nats_requeue.Bytes.Order.{equal_iff}
use nats_requeue.Result.{ok}
use nats_requeue.Reaper.Databases.{
  Disk, Version, Kv, Content, content, Any, IsTruthful, Shows, Gains, Lawful,
}
use nats_requeue.Reaper.{key_to_list}

-- A pair with the key `k` has the content `c`.
abbrev pub Tells : Bytes → Content → Kv → Type 0
Tells k c kv = kv.key ≡ k → content kv ≡ c

abbrev pub IsNoneOr : Content → Option Content → Type 0
IsNoneOr c o = (o ≡ none) ⊎ (o ≡ some c)

abbrev copied : Version → Bytes → Kv
copied v x = record {
  key = v.key;
  value = x;
  user_meta = v.user_meta;
  version = v.version;
  expires_at = v.expires_at;
}

-- KeyToList takes the first version or nothing.
key_to_list_cases :
    (j : Bytes) (v : Version) (vs : List Version) (l : List Kv)
    → key_to_list j (v ∷ vs) ≡ ok l
    → (l ≡ [])
      ⊎ ((x : Bytes) × (v.key ≡ j)
          × (v.is_deleted_or_expired ≡ false)
          × (v.value ≡ ok x)
          × (l ≡ copied v x ∷ []))
unfolding key_to_list
key_to_list_cases j v vs l h = ground (arith, equal_iff j v.key)

pub key_to_list-Tells :
    (held : Bytes → Option Content) (j k : Bytes) (c : Content) (vs : List Version) (l : List Kv)
    → IsTruthful held (j, vs)
    → IsNoneOr c (held k)
    → key_to_list j vs ≡ ok l
    → All (Tells k c) l
key_to_list-Tells held j k c [] l t n h = let e : [] ≡ l = unfold key_to_list in cc h in rw (← e) tt
key_to_list-Tells held j k c (v ∷ vs) l t n h = elim (key_to_list_cases j v vs l h) [
  | inl e ↦ rw e tt
  | inr (x, kj, live, val, e) ↦ rw e (
    λ kk.
        let got = t kj live x val in
        let same : held j ≡ held k = ap held (sym kj ∙ kk) in ground (arith, n, got, same),
    tt,
  )
]

pub key_to_list-Shows :
    (k : Bytes) (e : Bytes × List Version) (l : List Kv)
    → Shows k e
    → key_to_list e.0 e.1 ≡ ok l
    → Any (λ (kv : Kv). kv.key ≡ k) l
unfolding key_to_list
key_to_list-Shows k (j, []) l s h = absurd s
key_to_list-Shows k (j, v ∷ vs) l s h = ground (arith, equal_iff j v.key, s, h)

pub Any-append_left : (P : Kv → Type 0) (xs ys : List Kv) → Any P xs → Any P (xs ++ ys)
Any-append_left P [] ys h = absurd h
Any-append_left P (x ∷ xs) ys (inl h) = inl h
Any-append_left P (x ∷ xs) ys (inr h) = inr (Any-append_left P xs ys h)

pub Any-append_right : (P : Kv → Type 0) (xs ys : List Kv) → Any P ys → Any P (xs ++ ys)
Any-append_right P [] ys h = h
Any-append_right P (x ∷ xs) ys h = inr (Any-append_right P xs ys h)

pub given_content :
    (k : Bytes) (c : Content) (o : Option Content) (kvs : List Kv)
    → All (Tells k c) kvs
    → Any (λ (kv : Kv). (kv.key ≡ k) × (o ≡ some (content kv))) kvs
    → o ≡ some c
given_content k c o [] t a = absurd a
given_content k c o (kv ∷ kvs) t (inl a) = a.1 ∙ ap some (t.0 a.0)
given_content k c o (kv ∷ kvs) t (inr a) = given_content k c o kvs t.1 a

pub held_key :
    (P : Bytes → Type 0) (k : Bytes) (kvs : List Kv)
    → All (λ (kv : Kv). P kv.key) kvs
    → Any (λ (kv : Kv). kv.key ≡ k) kvs
    → P k
held_key P k [] h a = absurd a
held_key P k (kv ∷ kvs) h (inl a) = rw (← a) h.0
held_key P k (kv ∷ kvs) h (inr a) = held_key P k kvs h.1 a

module _ (d : Disk) (laws : Lawful d) (dst k : Bytes) (c : Content) where
  open d use {State, Batch, get, write, flush, stream, new_batch}

  -- Every database holds nothing under the key, or that content.
  abbrev pub Agrees : State → Type 0
  Agrees s = (p : Bytes) → IsNoneOr c (get s p k)

  pub Gains-holds :
      (p q : Bytes) (kvs : List Kv) (s s' : State)
      → Gains d p kvs s s'
      → All (Tells k c) kvs
      → get s q k ≡ some c
      → get s' q k ≡ some c
  Gains-holds p q kvs s s' g t h = elim (Bool-cases (equal_bytes q p)) [
    | inl e ↦
        let here = (equal_iff q p).0 e in
        rw here (elim (g.given k) [
          | inl same ↦ same ∙ (rw here at h)
          | inr new ↦ given_content k c (get s' p k) kvs t new
        ])
    | inr e ↦ g.others q k (λ here. cc ((equal_iff q p).1 here)) ∙ h
  ]

  pub Gains-Agrees :
      (p : Bytes) (kvs : List Kv) (s s' : State)
      → Gains d p kvs s s'
      → All (Tells k c) kvs
      → Agrees s
      → Agrees s'
  Gains-Agrees p kvs s s' g t a q = elim (Bool-cases (equal_bytes q p)) [
    | inl e ↦
        let here = (equal_iff q p).0 e in
        rw here (elim (g.given k) [
          | inl same ↦ rw same (a p)
          | inr new ↦ inr (given_content k c (get s' p k) kvs t new)
        ])
    | inr e ↦ rw (g.others q k (λ here. cc ((equal_iff q p).1 here))) (a q)
  ]
