-- ===== src/Tests/Transactions.antt =====
-- Transactions that hold two entries.
use nats_requeue.Prelude.{List, [], ◌∷◌, length, ltb, if◌then◌else◌}
use nats_requeue.Bytes.{Bytes}
use nats_requeue.Store.{Entry}
use nats_requeue.Writer.{Added, added, too_big, TxnOps}

-- A write is a key that is set or deleted.
abbrev write_key : List Bytes → Bytes → Added (List Bytes)
write_key t k = if ltb (length t) 2 then added (k ∷ t) else too_big

abbrev pub pairs : TxnOps
pairs = record {
  Txn = List Bytes;
  new_transaction = [];
  set_entry = λ t (e : Entry). write_key t e.key;
  delete = write_key;
}
