-- ===== src/Writer.antt =====
-- internal/badger/badger_write_batch.go: a batch of writes in one open transaction, which is
-- committed when it is full or flushed. Commits are asynchronous: the database calls `callback` when
-- one has finished, and `callback` here is that call. Methods run under the batch's lock, so each is
-- one step. An entry's callback is its handler: a number, or `none` for nil.
pub mod Handlers
pub mod Early
pub mod Throttle
use nats_requeue.Prelude.{
  leb, length, ℕ, Bool, true, false, List, [], ◌∷◌, ◌++◌, map, Option, none, some, if◌then◌else◌,
  filter,
}
use mathlib.Core.List.{Perm}
use nats_requeue.Bytes.{Bytes}
use nats_requeue.Result.{Error, txn_too_big}
use nats_requeue.Store.{Entry}

-- The answer of a transaction to a write: the transaction, ErrTxnTooBig, or another error.
pub data Added (T : Type 0) : Type 0 where
  added : T → Added T
  too_big : Added T
  refused : Error → Added T

-- The database's transactions, which are not in this repository.
pub record TxnOps : Type 1 where
  pub Txn : Type 0
  pub new_transaction : Txn
  pub set_entry : Txn → Entry → Added Txn
  pub delete : Txn → Bytes → Added Txn

-- `handlers` is the field commitCBs. `pending` holds the transactions given to CommitWith, oldest
-- first, whose callback has not run; `fired` are the calls of handlers that were given to goroutines so
-- far, each with its error, in the order in which they were given: they run at any time after that,
-- in any order, which IsSchedule says of a list of them.
pub record WriteBatch (T : Type 0) : Type 0 where
  pub txn : T
  pub error : Option Error
  pub handlers : List (Option ℕ)
  pub pending : List T
  pub fired : List (ℕ × Option Error)

-- The order in which the calls run that goroutines were given: any.
abbrev pub IsSchedule : (List (ℕ × Option Error) → List (ℕ × Option Error)) → Type 0
IsSchedule schedule = (es : List (ℕ × Option Error)) → Perm es (schedule es)

-- What the goroutine of execCommitHandlers starts: `go cb(err)` for each callback that is not nil.
unfoldable pub fire : List (Option ℕ) → Option Error → List (ℕ × Option Error)
fire [] e = []
fire (none ∷ hs) e = fire hs e
fire (some h ∷ hs) e = (h, e) ∷ fire hs e

-- The maximum of NewWriteBatch's throttle.
abbrev pub max_pending_txns : ℕ
max_pending_txns = 16

-- throttle.Do never returns where the maximum of commits is not done and none of the earlier ones has
-- left an error: commit holds the lock that their callbacks need.
unfoldable pub commit_blocks : {T : Type 0} → WriteBatch T → Option Error → Bool
commit_blocks wb throttled = elim wb.error [
  | some _ ↦ false
  | none ↦ elim throttled [ some _ ↦ false | none ↦ leb max_pending_txns (length wb.pending) ]
]

module _ {T : Type 0} where
  unfoldable pub exec_commit_handlers : WriteBatch T → Option Error → WriteBatch T
  unfolding fire
  exec_commit_handlers wb e = elim wb.handlers [
    | [] ↦ wb
    | h ∷ hs ↦ record wb { handlers = []; fired = wb.fired ++ fire (h ∷ hs) e }
  ]

  -- The first error is kept.
  keep_error : WriteBatch T → Option Error → WriteBatch T
  keep_error wb none = wb
  keep_error wb (some e) = elim wb.error [ some _ ↦ wb | none ↦ record wb { error = some e } ]

  -- The callback of a commit that ended with `e`; `rest` are the commits that are still pending.
  unfoldable pub callback : WriteBatch T → List T → Option Error → WriteBatch T
  unfolding exec_commit_handlers keep_error
  callback wb rest e = keep_error (exec_commit_handlers (record wb { pending = rest }) e) e

  unfoldable pub add_commit_handler : WriteBatch T → Option ℕ → WriteBatch T
  add_commit_handler wb cb = record wb { handlers = wb.handlers ++ cb ∷ [] }

module _ (o : TxnOps) where
  open o use {Txn, new_transaction, set_entry, delete}

  unfoldable pub new_write_batch : WriteBatch Txn
  new_write_batch = record {
    txn = new_transaction;
    error = none;
    handlers = [];
    pending = [];
    fired = [];
  }

  -- What a write to the transaction leaves of the batch: with the handler of an entry that was taken.
  with_handler : WriteBatch Txn → Option ℕ → Added Txn → Added (WriteBatch Txn)
  unfolding add_commit_handler
  with_handler wb cb (added t) = added (add_commit_handler (record wb { txn = t }) cb)
  with_handler wb cb too_big = too_big
  with_handler wb cb (refused e) = refused e

  unfoldable pub txn_sent_entry : WriteBatch Txn → Entry → Option ℕ → Added (WriteBatch Txn)
  unfolding with_handler
  txn_sent_entry wb e cb = with_handler wb cb (set_entry wb.txn e)

  unfoldable pub txn_delete : WriteBatch Txn → Bytes → Option ℕ → Added (WriteBatch Txn)
  unfolding with_handler
  txn_delete wb k cb = with_handler wb cb (delete wb.txn k)

  -- `throttled` is the error that throttle.Do hands out, where it does: that of an earlier commit. The
  -- case of commit_blocks is left to the callers, which then never return.
  unfoldable pub commit : WriteBatch Txn → Option Error → WriteBatch Txn × Option Error
  commit wb throttled = elim wb.error [
    | some e ↦ (wb, some e)
    | none ↦ elim throttled [
      | some e ↦ (wb, some e)
      | none ↦ (record wb { pending = wb.pending ++ wb.txn ∷ []; txn = new_transaction }, wb.error)
    ]
  ]

  -- The second attempt, in a new transaction: now ErrTxnTooBig is an error like any other, and it is
  -- kept.
  again : WriteBatch Txn → Added (WriteBatch Txn) → WriteBatch Txn × Option Error
  again wb (added wb') = (wb', none)
  again wb too_big = (record wb { error = some txn_too_big }, some txn_too_big)
  again wb (refused e) = (record wb { error = some e }, some e)

  -- The body that handleEntry and Delete share: write, and where the transaction is full commit it
  -- and write once more.
  write :
      (WriteBatch Txn → Added (WriteBatch Txn))
      → WriteBatch Txn
      → Option Error
      → WriteBatch Txn × Option Error
  unfolding commit again
  write attempt wb throttled = elim (attempt wb) [
    | added wb' ↦ (wb', none)
    | refused e ↦ (wb, some e)
    | too_big ↦
        let (wb', cerr) = commit wb throttled in
        elim cerr [ some e ↦ (wb', some e) | none ↦ again wb' (attempt wb') ]
  ]

  unfoldable pub handle_entry :
      WriteBatch Txn → Entry → Option ℕ → Option Error → WriteBatch Txn × Option Error
  unfolding write txn_sent_entry
  handle_entry wb e cb throttled = write (λ b. txn_sent_entry b e cb) wb throttled

  -- The write is to commit first, and cannot.
  unfoldable pub entry_blocks : WriteBatch Txn → Entry → Option Error → Bool
  unfolding commit_blocks
  entry_blocks wb e throttled = elim (set_entry wb.txn e) [
    | too_big ↦ commit_blocks wb throttled
    | _ ↦ false
  ]

  unfoldable pub set :
      WriteBatch Txn → Bytes → Bytes → Option ℕ → Option Error → WriteBatch Txn × Option Error
  unfolding handle_entry
  set wb k v cb throttled = handle_entry wb (record { key = k; value = v; ttl = none }) cb throttled

  unfoldable pub delete_key :
      WriteBatch Txn → Bytes → Option ℕ → Option Error → WriteBatch Txn × Option Error
  unfolding write txn_delete
  delete_key wb k cb throttled = write (λ b. txn_delete b k cb) wb throttled

  -- Flush up to throttle.Finish: its commit's error is dropped, and the new transaction discarded.
  unfoldable pub flush_begin : WriteBatch Txn → Option Error → WriteBatch Txn
  unfolding commit
  flush_begin wb throttled = (commit wb throttled).0

  -- The rest of Flush, when every callback has run: `finished` is the error of throttle.Finish.
  unfoldable pub flush_end : WriteBatch Txn → Option Error → WriteBatch Txn × Option Error
  unfolding exec_commit_handlers
  flush_end wb (some e) = (exec_commit_handlers wb (some e), some e)
  flush_end wb none = (exec_commit_handlers wb wb.error, wb.error)

  -- The callbacks of the commits that are pending, with their results; a missing result is success.
  unfoldable pub drain : WriteBatch Txn → List Txn → List (Option Error) → WriteBatch Txn
  unfolding callback
  drain wb [] rs = wb
  drain wb (t ∷ ts) [] = drain (callback wb ts none) ts []
  drain wb (t ∷ ts) (r ∷ rs) = drain (callback wb ts r) ts rs

  -- Cancel, where throttle.Finish waits in the same way; the open transaction is discarded.
  unfoldable pub cancel : WriteBatch Txn → List (Option Error) → WriteBatch Txn
  unfolding drain
  cancel wb rs = drain wb wb.pending rs

  -- Flush, where throttle.Finish waits for the callbacks, whose results are `rs`.
  unfoldable pub flush :
      WriteBatch Txn
      → Option Error
      → List (Option Error)
      → Option Error
      → WriteBatch Txn × Option Error
  unfolding flush_begin flush_end drain
  flush wb throttled rs finished =
      let begun = flush_begin wb throttled in flush_end (drain begun begun.pending rs) finished
