-- ===== src/Tests/Messages.antt =====
-- A requeue message with a strategy that has no name, written, changed and read with FlatBuffers.
use nats_requeue.RequeueMsg.Mutation.{requeue_read-mutate_ttl}
use nats_requeue.RequeueMsg.{mutate_retries, mutate_ttl}
use nats_requeue.Prelude.{some, arith, [], ◌∷◌, ◌≡◌}
use nats_requeue.Prelude.Int.{pos}
use nats_requeue.Protocol.{RequeueMessage, undefined}
use nats_requeue.RequeueMsg.{requeue_read, requeue_bytes}
use nats_requeue.RequeueMsg.RoundTrip.{requeue_read-bytes}
use nats_requeue.Tests.Buffers.{buffers}
use nats_requeue.Tests.BufferLaws.{buffers-Lawful}

abbrev unnamed : RequeueMessage
unnamed = record {
  retries = 3;
  ttl = 0;
  delay = 7;
  backoff_strategy = pos 5;
  queue_name = b'q' ∷ [];
  original_subject = b's' ∷ [];
  original_payload = [];
}

requeue_read-bytes_example :
    requeue_read buffers (requeue_bytes buffers unnamed)
    ≡ record unnamed { backoff_strategy = undefined }
requeue_read-bytes_example = requeue_read-bytes buffers-Lawful unnamed

abbrev limited : RequeueMessage
limited = record unnamed { ttl = 60_000_000_000 }

requeue_read-mutate_ttl_example :
    (buf₁ : buffers.Buffer) × (buf₂ : buffers.Buffer) × (mutate_retries buffers 2
        (requeue_bytes buffers limited)
        (buffers.root (requeue_bytes buffers limited))
      ≡ some buf₁)
    × (mutate_ttl buffers 5 buf₁ (buffers.root (requeue_bytes buffers limited)) ≡ some buf₂)
    × (requeue_read buffers buf₂
        ≡ record limited { retries = 2; ttl = 5; backoff_strategy = undefined })
requeue_read-mutate_ttl_example =
    requeue_read-mutate_ttl buffers-Lawful limited 2 5 (λ e. omega (arith, e))
      (λ e. omega (arith, e))
