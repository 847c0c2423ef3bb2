-- ===== src/Storage/Envelope/RoundTrip.antt =====
-- What encryptStream writes, decryptStream reads back.
use fluenthub.Prelude.{
  ℕ, suc, ◌≤◌, ◌≡◌, inl, inr, refl, ap, ◌∙◌, true, none, some, List, [], ◌∷◌, ◌++◌, arith, length,
  All,
}
use mathlib.Core.List.{append_assoc, append-nil}
use fluenthub.Prelude.Action.{Result, ok, is_ok, Result-cases, Faults, no_faults}
use fluenthub.Storage.{Bytes, Stream, Read, Source, Ending, going_on, end_of_file, failing, content}
use fluenthub.Storage.Envelope.{
  Aead, encrypted_magic, encryption_chunk, frame, encrypt_loop, encrypt_stream, finish, write_chunk,
  after, decrypt_stream,
}
use fluenthub.Storage.Envelope.Frames.{IsAead, IsChunk, frames, plains, decrypt_stream-frames}

-- A call of Read on a buffer of the size of a chunk.
abbrev pub IsRead : Read → Type 0
IsRead read = length read.bytes ≤ encryption_chunk

frames-append :
    (aead : Aead) (chunks : List (Bytes × Bytes)) (xs rest : Bytes)
    → frames aead chunks xs ++ rest ≡ frames aead chunks (xs ++ rest)
unfolding frames
frames-append aead [] xs rest = refl
frames-append aead ((nonce, plain) ∷ chunks) xs rest =
    append_assoc (frame aead nonce plain) (frames aead chunks xs) rest
    ∙ ap (λ ys. frame aead nonce plain ++ ys) (frames-append aead chunks xs rest)

-- What a run of the loop has written.
abbrev Written : Aead → Bytes → Stream → Type 0
Written aead out read =
    (read.1 ≡ none)
    × ((chunks : List (Bytes × Bytes)) × All (IsChunk aead) chunks
        × (plains chunks ≡ read.0)
        × (out ≡ frames aead chunks []))

module _ (aead : Aead) (nonces : ℕ → Bytes) (random_fails write_fails : Faults)
    (sized : (k : ℕ) → length (nonces k) ≡ aead.nonce_size) where
  finish-Written :
      (k : ℕ) (out : Bytes)
      → finish aead nonces random_fails write_fails k ≡ ok out
      → Written aead out ([], none)
  unfolding finish plains frames
  finish-Written k out h = (refl, ([], tt, refl, ground arith))

  -- One more chunk before what is written, if there are bytes.
  chunk-Written :
      (k : ℕ) (bytes : Bytes) (same_count next_count : Result Bytes) (read : Stream) (out : Bytes)
      → length bytes ≤ encryption_chunk
      → ((rest : Bytes) → same_count ≡ ok rest → Written aead rest read)
      → ((rest : Bytes) → next_count ≡ ok rest → Written aead rest read)
      → write_chunk aead nonces random_fails write_fails k bytes same_count next_count ≡ ok out
      → Written aead out (bytes ++ read.0, read.1)
  unfolding plains frames
  chunk-Written k [] same_count next_count read out small same next h = same out h
  chunk-Written k (x ∷ xs) same_count next_count read out small same next h =
      elim (Result-cases next_count) [
        | inl (rest, done) ↦
            let (fine, (chunks, are_chunks, bytes_of, rest_of)) = next rest done in
            let written : out ≡ frame aead (nonces k) (x ∷ xs) ++ rest = ground arith in
            (
              fine,
              (
                (nonces k, x ∷ xs) ∷ chunks,
                ((sized k, omega arith, small), are_chunks),
                ap (λ ys. x ∷ xs ++ ys) bytes_of,
                written ∙ ap (λ ys. frame aead (nonces k) (x ∷ xs) ++ ys) rest_of,
              ),
            )
        | inr (e, failed) ↦ ground (arith, failed)
      ]

  -- One round, by what the read ended with.
  round-Written :
      (k : ℕ) (bytes : Bytes) (ending : Ending) (loop next_loop : Result Bytes) (later : Stream)
      (out : Bytes)
      → length bytes ≤ encryption_chunk
      → ((rest : Bytes) → loop ≡ ok rest → Written aead rest later)
      → ((rest : Bytes) → next_loop ≡ ok rest → Written aead rest later)
      → write_chunk aead nonces random_fails write_fails k bytes
          (after aead nonces random_fails write_fails ending loop
            (finish aead nonces random_fails write_fails k))
          (after aead nonces random_fails write_fails ending next_loop
            (finish aead nonces random_fails write_fails (suc k)))
        ≡ ok out
      → Written aead out (elim ending [
        | going_on ↦ (bytes ++ later.0, later.1)
        | end_of_file ↦ (bytes, none)
        | failing e ↦ (bytes, some e)
      ])
  round-Written k bytes going_on loop next_loop later out small same next h =
      chunk-Written k bytes loop next_loop later out small same next h
  round-Written k bytes end_of_file loop next_loop later out small same next h =
      let (fine, (chunks, are_chunks, bytes_of, rest_of)) =
        chunk-Written k bytes (finish aead nonces random_fails write_fails k)
          (finish aead nonces random_fails write_fails (suc k)) ([], none) out small
          (finish-Written k) (finish-Written (suc k)) h in
      (fine, (chunks, are_chunks, bytes_of ∙ append-nil bytes, rest_of))
  round-Written k [] (failing e) loop next_loop later out small same next h = cc
  round-Written k (x ∷ xs) (failing e) loop next_loop later out small same next h = ground arith

  encrypt_loop-Written :
      (k : ℕ) (source : Source) (out : Bytes)
      → All IsRead source
      → encrypt_loop aead nonces random_fails write_fails k source ≡ ok out
      → Written aead out (content source)
  unfolding encrypt_loop content
  encrypt_loop-Written k [] out h done = finish-Written k out done
  encrypt_loop-Written k (read ∷ source) out (small, more) done =
      round-Written k read.bytes read.ending
        (encrypt_loop aead nonces random_fails write_fails k source)
        (encrypt_loop aead nonces random_fails write_fails (suc k) source) (content source) out
        small (λ rest h. encrypt_loop-Written k source rest more h)
        (λ rest h. encrypt_loop-Written (suc k) source rest more h) done

  -- What encryptStream has written is decrypted into what its source had, whatever follows it.
  pub decrypt_stream-encrypt_stream :
      (source : Source) (out rest : Bytes)
      → IsAead aead
      → All IsRead source
      → encrypt_stream aead nonces random_fails write_fails source ≡ ok out
      → ((content source).1 ≡ none) × (decrypt_stream aead (out ++ rest) ≡ some (content source))
  unfolding encrypt_stream
  decrypt_stream-encrypt_stream source out rest laws reads done =
      elim (Result-cases (encrypt_loop aead nonces random_fails write_fails 0 source)) [
        | inl (body, looped) ↦
            let (fine, (chunks, are_chunks, bytes_of, body_of)) =
              encrypt_loop-Written 0 source body reads looped in
            let whole : out ≡ encrypted_magic ++ body = ground (arith, looped) in
            let written : out ++ rest ≡ encrypted_magic ++ frames aead chunks rest =
              ap (λ ys. ys ++ rest) whole
              ∙ ap (λ ys. encrypted_magic ++ (ys ++ rest)) body_of
              ∙ ap (λ ys. encrypted_magic ++ ys) (frames-append aead chunks [] rest) in
            (
              fine,
              ap (decrypt_stream aead) written
                  ∙ decrypt_stream-frames aead laws chunks rest are_chunks
                  ∙ ground (arith, fine, bytes_of),
            )
        | inr (e, failed) ↦ ground (arith, failed)
      ]

-- Without a failure of the random generator or of a write, encryptStream fails only with the source's error.
encrypt_loop_succeeds :
    (aead : Aead) (nonces : ℕ → Bytes) (k : ℕ) (source : Source)
    → (content source).1 ≡ none
    → is_ok (encrypt_loop aead nonces no_faults no_faults k source) ≡ true
unfolding encrypt_loop content finish
encrypt_loop_succeeds aead nonces k [] fine = refl
encrypt_loop_succeeds aead nonces k (read ∷ source) fine =
    round read.bytes read.ending (λ h. encrypt_loop_succeeds aead nonces k source h)
      (λ h. encrypt_loop_succeeds aead nonces (suc k) source h) fine
  where
    round :
        (bytes : Bytes) (ending : Ending)
        → ((content source).1 ≡ none
            → is_ok (encrypt_loop aead nonces no_faults no_faults k source) ≡ true)
        → ((content source).1 ≡ none
            → is_ok (encrypt_loop aead nonces no_faults no_faults (suc k) source) ≡ true)
        → (elim ending as (λ _. Stream) [
          | going_on ↦ (bytes ++ (content source).0, (content source).1)
          | end_of_file ↦ (bytes, none)
          | failing e ↦ (bytes, some e)
        ]).1
          ≡ none
        → is_ok (
            write_chunk aead nonces no_faults no_faults k bytes
              (after aead nonces no_faults no_faults ending
                (encrypt_loop aead nonces no_faults no_faults k source)
                (finish aead nonces no_faults no_faults k))
              (after aead nonces no_faults no_faults ending
                (encrypt_loop aead nonces no_faults no_faults (suc k) source)
                (finish aead nonces no_faults no_faults (suc k))))
          ≡ true
    round [] going_on same next h = same h
    round (x ∷ xs) going_on same next h = ground (arith, next h)
    round [] end_of_file same next h = refl
    round (x ∷ xs) end_of_file same next h = refl
    round bytes (failing e) same next h = cc

-- With fresh nonces of the right size, an AEAD that undoes its own sealing and no failing call, encryptStream
-- succeeds on every source without an error, read in any pieces of at most a chunk, and decryptStream gives back
-- exactly the bytes of the source, whatever follows the envelope.
pub encrypt_stream_round_trip :
    (aead : Aead) (nonces : ℕ → Bytes) (source : Source) (rest : Bytes)
    → ((k : ℕ) → length (nonces k) ≡ aead.nonce_size)
    → IsAead aead
    → All IsRead source
    → (content source).1 ≡ none
    → (out : Bytes) × (encrypt_stream aead nonces no_faults no_faults source ≡ ok out)
      × (decrypt_stream aead (out ++ rest) ≡ some (content source))
unfolding encrypt_stream
encrypt_stream_round_trip aead nonces source rest sized laws reads fine =
    let works = encrypt_loop_succeeds aead nonces 0 source fine in
    elim (Result-cases (encrypt_stream aead nonces no_faults no_faults source)) [
      | inl (out, done) ↦ (
        out,
        done,
        (decrypt_stream-encrypt_stream aead nonces no_faults no_faults sized source out rest laws
            reads done).1,
      )
      | inr (e, failed) ↦ ground (arith, works)
    ]

-- An envelope starts with the magic.
pub encrypt_stream-magic :
    (aead : Aead) (nonces : ℕ → Bytes) (random_fails write_fails : Faults) (source : Source)
    (out : Bytes)
    → encrypt_stream aead nonces random_fails write_fails source ≡ ok out
    → (body : Bytes) × (out ≡ encrypted_magic ++ body)
unfolding encrypt_stream
encrypt_stream-magic aead nonces random_fails write_fails source out done =
    elim (Result-cases (encrypt_loop aead nonces random_fails write_fails 0 source)) [
      | inl (body, looped) ↦ (body, ground (arith, looped))
      | inr (e, failed) ↦ ground (arith, failed)
    ]
