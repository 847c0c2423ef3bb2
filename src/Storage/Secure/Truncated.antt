-- ===== src/Storage/Secure/Truncated.antt =====
-- An encrypted object that ends between two chunks.
use fluenthub.Prelude.{
  ℕ, zero, suc, ◌%◌, ◌^◌, ◌≤◌, ◌<◌, ◌≡◌, refl, ap, ◌∙◌, false, none, some, List, [], ◌∷◌, ◌++◌, eqb,
  arith, length, length-append, All,
}
use fluenthub.Prelude.Action.{Result, ok}
use fluenthub.Storage.{Bytes}
use fluenthub.Storage.Envelope.{
  Aead, encrypted_magic, frame, put_uint32, read_full, same_bytes, write_before, eof, decrypt_loop,
  decrypt_stream,
}
use fluenthub.Storage.Envelope.Frames.{IsAead, IsChunk, plains, decrypt_loop-frame}
use fluenthub.Storage.Secure.{SecureObjectStorage, Environment, opened}

-- Some chunks with no end mark.
unfoldable pub unended : Aead → List (Bytes × Bytes) → Bytes
unended aead [] = []
unended aead ((nonce, plain) ∷ chunks) = frame aead nonce plain ++ unended aead chunks

module _ (aead : Aead) (laws : IsAead aead) where
  decrypt_loop-unended :
      (chunks : List (Bytes × Bytes)) (fuel : ℕ)
      → All (IsChunk aead) chunks
      → length chunks < fuel
      → decrypt_loop aead fuel (unended aead chunks) ≡ some (plains chunks, some eof)
  unfolding unended plains decrypt_loop read_full
  decrypt_loop-unended chunks zero h lt = ground (arith, lt)
  decrypt_loop-unended [] (suc fuel) h lt = refl
  decrypt_loop-unended ((nonce, plain) ∷ chunks) (suc fuel) (chunk, more) lt =
      decrypt_loop-frame aead laws fuel nonce plain (unended aead chunks) chunk
      ∙ ap (write_before plain) (decrypt_loop-unended chunks fuel more (omega (arith, lt)))

  length-unended : (chunks : List (Bytes × Bytes)) → length chunks ≤ length (unended aead chunks)
  unfolding unended frame
  length-unended [] = omega arith
  length-unended ((nonce, plain) ∷ chunks) =
      let size = put_uint32 (length plain % 2 ^ 32) in
      let later = length-unended chunks in
      let whole =
        length-append (size ++ (nonce ++ aead.seal nonce plain size)) (unended aead chunks) in
      let first = length-append size (nonce ++ aead.seal nonce plain size) in
      omega (arith, later, whole, first)

  -- An encrypted object that is cut off after any of its chunks, before the end mark, is opened as the bytes up to
  -- there, and its reader sees a plain end instead of an error.
  pub opened_truncated :
      {S : Type 0} (new_gcm : Bytes → Result Aead) (storage : SecureObjectStorage S)
      (env : Environment) (chunks : List (Bytes × Bytes))
      → eqb (length storage.key) 0 ≡ false
      → new_gcm storage.key ≡ ok aead
      → All (IsChunk aead) chunks
      → opened new_gcm storage env (encrypted_magic ++ unended aead chunks, none)
        ≡ ok (plains chunks, none)
  unfolding opened decrypt_stream read_full same_bytes
  opened_truncated new_gcm storage env chunks keyed made h =
      let looped =
        decrypt_loop-unended chunks (suc (length (unended aead chunks))) h
          (omega (arith, length-unended chunks)) in
      ground (arith, keyed, made, looped)
