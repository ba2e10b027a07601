-- ===== src/Writer/Early.antt =====
-- A commit's callback runs every handler of the batch, also those of the transaction that is still
-- open.
use nats_requeue.Prelude.{ℕ, [], ◌∷◌, ◌++◌, Option, none, some, ◌≡◌, arith}
use nats_requeue.Result.{Error}
use nats_requeue.Store.{Entry}
use nats_requeue.Writer.{added, too_big, TxnOps, WriteBatch, callback, handle_entry}

module _ (o : TxnOps) where
  open o use {Txn, set_entry}

  -- The transaction is full, so it is committed, and the entry goes into a new one. When the first
  -- commit ends well, the entry's handler is told of success, while the transaction that took the
  -- entry is still open; and then no handler of the entry is left for that transaction's own result.
  pub early_success :
      (wb wb' : WriteBatch Txn) (e : Entry) (h : ℕ) (throttled : Option Error)
      → wb.handlers ≡ []
      → set_entry wb.txn e ≡ too_big
      → handle_entry o wb e (some h) throttled ≡ (wb', none)
      → let told = callback wb' wb.pending none in
        (wb'.pending ≡ wb.pending ++ wb.txn ∷ [])
        × (set_entry (o.new_transaction) e ≡ added told.txn)
        × (told.fired ≡ wb.fired ++ (h, none) ∷ [])
        × (told.handlers ≡ [])
  unfolding handle_entry callback
  early_success wb wb' e h throttled n full ok = ground arith
