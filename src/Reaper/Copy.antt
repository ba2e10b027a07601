-- ===== src/Reaper/Copy.antt =====
-- copyBadger: what it writes is what the source holds, and when it succeeds it has written all.
use nats_requeue.Prelude.{
  List, [], ◌∷◌, ◌++◌, Option, none, some, ◌≡◌, ◌≢◌, inl, inr, refl, All, All-append, arith,
}
use nats_requeue.Bytes.{Bytes}
use nats_requeue.Result.{Result-cases, Error, Result, ok, err}
use nats_requeue.Reaper.Databases.{Disk, Version, Kv, Content, Any, IsTruthful, Shows, Lawful}
use nats_requeue.Reaper.{key_to_list, copy_keys, copy_badger}
use nats_requeue.Prelude.{◌∙◌}
use nats_requeue.Reaper.Pairs.{
  Tells, IsNoneOr, key_to_list-Tells, key_to_list-Shows, Any-append_left, Any-append_right,
  held_key, Agrees, Gains-holds, Gains-Agrees,
}

module _ (d : Disk) (laws : Lawful d) (dst k : Bytes) (c : Content) where
  open d use {State, Batch, get, write, flush, stream, new_batch}

  -- What the sending of the lists leaves.
  pub record Copied (s s' : State) (r : Result Batch) : Type 0 where
    pub agrees : Agrees d laws dst k c s'
    pub holds : (q : Bytes) → get s q k ≡ some c → get s' q k ≡ some c
    pub others : (q : Bytes) → q ≢ dst → get s' q k ≡ get s q k
    pub tells : (b' : Batch) → r ≡ ok b' → All (Tells k c) (laws.written b')

  -- The three ways through a round of the stream.
  module _ (s : State) (b : Batch) (j : Bytes) (vs : List Version)
      (keys : List (Bytes × List Version)) where
    unreadable :
        (e : Error) → key_to_list j vs ≡ err e → copy_keys d s dst b ((j, vs) ∷ keys) ≡ (s, err e)
    unfolding copy_keys
    unreadable e p = ground (arith, p)

    unsent :
        (l : List Kv) (e : Error)
        → key_to_list j vs ≡ ok l
        → (write s dst b l).1 ≡ err e
        → copy_keys d s dst b ((j, vs) ∷ keys) ≡ ((write s dst b l).0, err e)
    unfolding copy_keys
    unsent l e p w = ground (arith, p, w)

    sent :
        (l : List Kv) (b' : Batch)
        → key_to_list j vs ≡ ok l
        → (write s dst b l).1 ≡ ok b'
        → copy_keys d s dst b ((j, vs) ∷ keys) ≡ copy_keys d (write s dst b l).0 dst b' keys
    unfolding copy_keys
    sent l b' p w = ground (arith, p, w)

  pub copy_keys-Copied :
      (held : Bytes → Option Content) (s : State) (b : Batch) (keys : List (Bytes × List Version))
      → All (IsTruthful held) keys
      → IsNoneOr c (held k)
      → Agrees d laws dst k c s
      → All (Tells k c) (laws.written b)
      → Copied s (copy_keys d s dst b keys).0 (copy_keys d s dst b keys).1
  unfolding copy_keys
  copy_keys-Copied held s b [] h n a t = record {
    agrees = a;
    holds = λ q g. g;
    others = λ q n. refl;
    tells = λ b' e. (let same : b ≡ b' = cc e in rw (← same) t);
  }
  copy_keys-Copied held s b ((j, vs) ∷ keys) h n a t = elim (Result-cases (key_to_list j vs)) [
    | inr (e, p) ↦ rw (unreadable s b j vs keys e p) (record {
      agrees = a;
      holds = λ q g. g;
      others = λ q n. refl;
      tells = λ b' x. absurd (cc x);
    })
    | inl (l, p) ↦
        let told = key_to_list-Tells held j k c vs l h.0 n p in
        let all = All-append (Tells k c) (laws.written b) l t told in
        let gains = laws.write_gains s dst b l in
        let s' = (write s dst b l).0 in
        let agrees = Gains-Agrees d laws dst k c dst (laws.written b ++ l) s s' gains all a in
        let holds =
          λ (q : Bytes). Gains-holds d laws dst k c dst q (laws.written b ++ l) s s' gains all in
        elim (Result-cases (write s dst b l).1) [
          | inr (e, w) ↦ rw (unsent s b j vs keys l e p w) (record {
            agrees = agrees;
            holds = holds;
            others = λ q. gains.others q k;
            tells = λ b' x. absurd (cc x);
          })
          | inl (b', w) ↦
              let grown = laws.write_written s dst b b' l w in
              let rest = copy_keys-Copied held s' b' keys h.1 n agrees (rw grown all) in
              rw (sent s b j vs keys l b' p w) (record {
                agrees = rest.agrees;
                holds = λ q g. rest.holds q (holds q g);
                others = λ q n. rest.others q n ∙ gains.others q k n;
                tells = rest.tells;
              })
        ]
  ]

  -- A pair that was in the batch stays in it.
  copy_keys-keeps :
      (s : State) (b b' : Batch) (keys : List (Bytes × List Version))
      → (copy_keys d s dst b keys).1 ≡ ok b'
      → Any (λ (kv : Kv). kv.key ≡ k) (laws.written b)
      → Any (λ (kv : Kv). kv.key ≡ k) (laws.written b')
  unfolding copy_keys
  copy_keys-keeps s b b' [] e h = let same : b ≡ b' = cc e in rw (← same) h
  copy_keys-keeps s b b' ((j, vs) ∷ keys) e h = elim (Result-cases (key_to_list j vs)) [
    | inr (x, p) ↦ absurd (cc (rw (unreadable s b j vs keys x p) at e))
    | inl (l, p) ↦ elim (Result-cases (write s dst b l).1) [
      | inr (x, w) ↦ absurd (cc (rw (unsent s b j vs keys l x p w) at e))
      | inl (b'', w) ↦
          copy_keys-keeps (write s dst b l).0 b'' b' keys (rw (sent s b j vs keys l b'' p w) at e)
            (rw (laws.write_written s dst b b'' l w) (Any-append_left _ (laws.written b) l h))
    ]
  ]

  -- A key that the stream shows is written.
  copy_keys-writes :
      (s : State) (b b' : Batch) (keys : List (Bytes × List Version))
      → (copy_keys d s dst b keys).1 ≡ ok b'
      → Any (Shows k) keys
      → Any (λ (kv : Kv). kv.key ≡ k) (laws.written b')
  unfolding copy_keys
  copy_keys-writes s b b' [] e h = absurd h
  copy_keys-writes s b b' ((j, vs) ∷ keys) e h = elim (Result-cases (key_to_list j vs)) [
    | inr (x, p) ↦ absurd (cc (rw (unreadable s b j vs keys x p) at e))
    | inl (l, p) ↦ elim (Result-cases (write s dst b l).1) [
      | inr (x, w) ↦ absurd (cc (rw (unsent s b j vs keys l x p w) at e))
      | inl (b'', w) ↦
          let rest : (copy_keys d (write s dst b l).0 dst b'' keys).1 ≡ ok b' =
            rw (sent s b j vs keys l b'' p w) at e in
          elim h [
            | inl now ↦ copy_keys-keeps (write s dst b l).0 b'' b' keys rest (
                rw (laws.write_written s dst b b'' l w)
                  (Any-append_right _ (laws.written b) l (key_to_list-Shows k (j, vs) l now p)))
            | inr later ↦ copy_keys-writes (write s dst b l).0 b'' b' keys rest later
          ]
    ]
  ]

  -- What a copy leaves: the databases agree, what held the content holds it still, and where the copy
  -- succeeds and the source held it, the destination does.
  pub record IsCopy (s s' : State) (src : Bytes) (r : Option Error) : Type 0 where
    pub agrees : Agrees d laws dst k c s'
    pub holds : (q : Bytes) → get s q k ≡ some c → get s' q k ≡ some c
    pub others : (q : Bytes) → q ≢ dst → get s' q k ≡ get s q k
    pub complete : r ≡ none → get s src k ≡ some c → get s' dst k ≡ some c

  flush-IsCopy :
      (s s' : State) (src : Bytes) (b : Batch) (l : List (Bytes × List Version))
      → stream s src ≡ ok l
      → Copied s s' (ok b)
      → (copy_keys d s dst (new_batch dst) l).1 ≡ ok b
      → IsCopy s (flush s' dst b).0 src (flush s' dst b).1
  flush-IsCopy s s' src b l st cp e =
      let gains = laws.flush_gains s' dst b in
      let told = cp.tells b refl in
      let agrees =
        Gains-Agrees d laws dst k c dst (laws.written b) s' (flush s' dst b).0 gains told
          cp.agrees in
      record {
        agrees = agrees;
        holds = λ q h.
            Gains-holds d laws dst k c dst q (laws.written b) s' (flush s' dst b).0 gains told
              (cp.holds q h);
        others = λ q n. gains.others q k n ∙ cp.others q n;
        complete = λ done h.
            let shown = laws.shows s src k c l st h in
            let wrote = copy_keys-writes s (new_batch dst) b l e shown in
            let there =
              held_key (λ j. get (flush s' dst b).0 dst j ≢ none) k (laws.written b)
                (laws.flush_holds s' dst b done) wrote in
            elim (agrees dst) [ inl gone ↦ absurd (there gone) | inr kept ↦ kept ];
      }

  -- The three ways through copyBadger.
  module _ (s : State) (src : Bytes) where
    unstreamed : (e : Error) → stream s src ≡ err e → copy_badger d s dst src ≡ (s, some e)
    unfolding copy_badger
    unstreamed e p = ground (arith, p)

    uncopied :
        (l : List (Bytes × List Version)) (e : Error)
        → stream s src ≡ ok l
        → (copy_keys d s dst (new_batch dst) l).1 ≡ err e
        → copy_badger d s dst src ≡ ((copy_keys d s dst (new_batch dst) l).0, some e)
    unfolding copy_badger
    uncopied l e p q = ground (arith, p, q)

    flushed :
        (l : List (Bytes × List Version)) (b : Batch)
        → stream s src ≡ ok l
        → (copy_keys d s dst (new_batch dst) l).1 ≡ ok b
        → copy_badger d s dst src ≡ flush (copy_keys d s dst (new_batch dst) l).0 dst b
    unfolding copy_badger
    flushed l b p q = ground (arith, p, q)

  pub copy_badger-IsCopy :
      (s : State) (src : Bytes)
      → Agrees d laws dst k c s
      → IsCopy s (copy_badger d s dst src).0 src (copy_badger d s dst src).1
  copy_badger-IsCopy s src a = elim (Result-cases (stream s src)) [
    | inr (e, p) ↦ rw (unstreamed s src e p) (record {
      agrees = a;
      holds = λ q h. h;
      others = λ q n. refl;
      complete = λ e h. absurd (cc e);
    })
    | inl (l, p) ↦
        let told : All (Tells k c) (laws.written (new_batch dst)) = rw (laws.fresh dst) tt in
        let cp =
          copy_keys-Copied (get s src) s (new_batch dst) l (laws.truthful s src l p) (a src) a
            told in
        elim (Result-cases (copy_keys d s dst (new_batch dst) l).1) [
          | inr (e, q) ↦ rw (uncopied s src l e p q) (record {
            agrees = cp.agrees;
            holds = cp.holds;
            others = cp.others;
            complete = λ e h. absurd (cc e);
          })
          | inl (b, q) ↦
              rw (flushed s src l b p q)
                (flush-IsCopy s (copy_keys d s dst (new_batch dst) l).0 src b l p (rw q at cp) q)
        ]
  ]
