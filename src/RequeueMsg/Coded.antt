-- ===== src/RequeueMsg/Coded.antt =====
-- The codec that the other modules take as a parameter, made of the generated accessors and the
-- FlatBuffers library. `of_buffer` and `to_buffer` go between a finished buffer and its bytes, and the two tests say
-- whether the library's accessors keep to the bytes of a buffer.
use nats_requeue.Prelude.{Bool, true, ℕ, Option, none, some, ◌≡◌, ◌≢◌, refl, sym, ap, ◌∙◌}
use nats_requeue.Bytes.{Bytes}
use nats_requeue.Flatbuffers.{Flatbuffers}
use nats_requeue.Flatbuffers.Laws.{Lawful}
use nats_requeue.Protocol.{RequeueMessage, Codec, LawfulCodec}
use nats_requeue.RequeueMsg.{
  requeue_to_flatbuf, requeue_bytes, requeue_read, mutate_retries, mutate_ttl,
}
use nats_requeue.RequeueMsg.Stored.{Holds, bytes-Holds}
use nats_requeue.RequeueMsg.RoundTrip.{requeue_read_held, requeue_read-bytes}
use nats_requeue.RequeueMsg.Mutation.{mutate_retries-Holds, mutate_ttl-Holds}

module _ (f : Flatbuffers) (of_buffer : f.Buffer → Bytes) (to_buffer : Bytes → f.Buffer)
    (is_payload_sound are_fields_sound : f.Buffer → Bool) where
  bytes_of : Option (f.Buffer) → Option Bytes
  bytes_of none = none
  bytes_of (some buf) = some (of_buffer buf)

  -- The root's position is read from the bytes, as GetRootAsRequeueMessage does.
  unfoldable pub requeue_codec : Codec
  unfolding bytes_of
  requeue_codec = record {
    is_payload_sound = λ b. is_payload_sound (to_buffer b);
    are_fields_sound = λ b. are_fields_sound (to_buffer b);
    read = λ b. requeue_read f (to_buffer b);
    write = λ m. of_buffer (requeue_bytes f m);
    mutate_retries = λ b n. bytes_of (mutate_retries f n (to_buffer b) (f.root (to_buffer b)));
    mutate_ttl = λ b n. bytes_of (mutate_ttl f n (to_buffer b) (f.root (to_buffer b)));
  }

  -- The buffer's root is a message.
  abbrev pub IsMessage : Lawful f → f.Buffer → Type 0
  IsMessage laws buf = (r : RequeueMessage) × Holds laws buf (f.root buf) r

  module _ (laws : Lawful f) (back : (buf : f.Buffer) → to_buffer (of_buffer buf) ≡ buf)
      (sound : (buf : f.Buffer)
        → IsMessage laws buf
        → (is_payload_sound buf ≡ true) × (are_fields_sound buf ≡ true)) where
    rooted :
        (buf : f.Buffer) (p : ℕ) (r : RequeueMessage)
        → Holds laws buf p r
        → Holds laws buf (f.root buf) r
    rooted buf p r h = rw h.at_root h

    read_message : (buf : f.Buffer) (m : IsMessage laws buf) → requeue_read f buf ≡ m.0
    read_message buf (r, h) = requeue_read_held laws r (f.root buf) buf h

    encoded-IsMessage : (m : RequeueMessage) → IsMessage laws (requeue_bytes f m)
    unfolding requeue_bytes
    encoded-IsMessage m =
        let (b, p) = requeue_to_flatbuf f m f.new_builder in
        (_, rooted (f.finish p b) p _ (bytes-Holds laws m))

    retries_written :
        (buf : f.Buffer) (n : ℕ)
        → IsMessage laws buf
        → (requeue_read f buf).retries ≢ 0
        → (buf' : f.Buffer) × (mutate_retries f n buf (f.root buf) ≡ some buf')
          × IsMessage laws buf'
          × (requeue_read f buf' ≡ record (requeue_read f buf) { retries = n })
    retries_written buf n (r, h) nz =
        let was = read_message buf (r, h) in
        let (buf', e, h') =
          mutate_retries-Holds laws r n (f.root buf) buf h
            (λ z. nz (ap (λ (m : RequeueMessage). m.retries) was ∙ z)) in
        (
          buf',
          e,
          (_, rooted buf' (f.root buf) _ h'),
          requeue_read_held laws _ (f.root buf) buf' h'
              ∙ ap (λ (m : RequeueMessage). record m { retries = n }) (sym was),
        )

    ttl_written :
        (buf : f.Buffer) (n : ℕ)
        → IsMessage laws buf
        → (requeue_read f buf).ttl ≢ 0
        → (buf' : f.Buffer) × (mutate_ttl f n buf (f.root buf) ≡ some buf')
          × IsMessage laws buf'
          × (requeue_read f buf' ≡ record (requeue_read f buf) { ttl = n })
    ttl_written buf n (r, h) nz =
        let was = read_message buf (r, h) in
        let (buf', e, h') =
          mutate_ttl-Holds laws r n (f.root buf) buf h
            (λ z. nz (ap (λ (m : RequeueMessage). m.ttl) was ∙ z)) in
        (
          buf',
          e,
          (_, rooted buf' (f.root buf) _ h'),
          requeue_read_held laws _ (f.root buf) buf' h'
              ∙ ap (λ (m : RequeueMessage). record m { ttl = n }) (sym was),
        )

    -- With any library that meets its laws, whose accessors keep to the bytes of a message, and bytes that give back the buffer, the generated accessors
    -- are a codec that meets the laws by which the republisher uses one.
    pub requeue_codec-LawfulCodec : LawfulCodec requeue_codec
    unfolding requeue_codec
    requeue_codec-LawfulCodec = record {
      IsStored = λ b. IsMessage laws (to_buffer b);
      stored_sound = λ b m. sound (to_buffer b) m;
      write-IsStored = λ m. rw (back (requeue_bytes f m)) (encoded-IsMessage m);
      read-write = λ m h. rw (back (requeue_bytes f m)) (requeue_read-bytes laws m ∙ rw h refl);
      retries_stored = λ b n h nz.
          let (buf', e, m, rd) = retries_written (to_buffer b) n h nz in
          (of_buffer buf', ap bytes_of e, rw (back buf') m, rw (back buf') rd);
      ttl_stored = λ b n h nz.
          let (buf', e, m, rd) = ttl_written (to_buffer b) n h nz in
          (of_buffer buf', ap bytes_of e, rw (back buf') m, rw (back buf') rd);
    }
