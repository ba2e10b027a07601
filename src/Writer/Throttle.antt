-- ===== src/Writer/Throttle.antt =====
-- internal/badger/badger_write_batch.go: the batch's lock and its throttle, as goroutines take them.
-- The throttle, y.Throttle of Badger, lets Do pass while fewer than its maximum of commits are not yet
-- Done, and blocks it otherwise.
pub mod Deadlock
use nats_requeue.Prelude.{ℕ, suc, ◌+◌, ◌<◌, ◌≡◌}

-- Who holds the batch's lock: a method in its write, a method at throttle.Do in commit, or a callback.
pub data Owner : Type 0 where
  nobody writing committing calling_back : Owner

-- `max` is the throttle's maximum; `running` counts the commits whose callback has not got the lock, and
-- `finishing` the callbacks that have released it and not yet called Done.
pub record Throttle : Type 0 where
  pub max : ℕ
  pub owner : Owner
  pub running : ℕ
  pub finishing : ℕ

-- NewWriteBatch
unfoldable pub new_throttle : Throttle
new_throttle = record { max = 16; owner = nobody; running = 0; finishing = 0 }

-- SetMaxPendingTxns, which makes a new throttle.
unfoldable pub set_max_pending_txns : ℕ → Throttle
set_max_pending_txns max = record { max = max; owner = nobody; running = 0; finishing = 0 }

-- SetEntry, Delete and Flush take the lock, the former two commit where the transaction is full.
pub data Step (t : Throttle) : Throttle → Type 0 where
  lock : t.owner ≡ nobody → Step t (record t { owner = writing })
  commit : t.owner ≡ writing → Step t (record t { owner = committing })
  unlock : t.owner ≡ writing → Step t (record t { owner = nobody })
  -- Do passes; the method goes on with the new transaction, and releases the lock.
  committed :
      t.owner ≡ committing
      → t.running + t.finishing < t.max
      → Step t (record t { owner = nobody; running = suc t.running })
  callback_locks :
      (n : ℕ)
      → t.running ≡ suc n
      → t.owner ≡ nobody
      → Step t (record t { owner = calling_back; running = n })
  -- The deferred calls: first Unlock, then Done.
  callback_unlocks :
      t.owner ≡ calling_back → Step t (record t { owner = nobody; finishing = suc t.finishing })
  callback_done : (n : ℕ) → t.finishing ≡ suc n → Step t (record t { finishing = n })

pub data Reach (t : Throttle) : Throttle → Type 0 where
  here : Reach t t
  next : {u w : Throttle} → Reach t u → Step u w → Reach t w
