-- ===== src/Storage/Envelope/Tests.antt =====
-- Envelopes of a toy AEAD, which appends its nonce: a stand-in that meets the promises.
pub mod Toy
use fluenthub.Prelude.{ℕ, ◌+◌, ◌≡◌, ◌⊎◌, refl, none, some, List, [], ◌∷◌, ◌++◌, suc, length, arith}
use fluenthub.Prelude.Action.{ok, no_faults, reason}
use fluenthub.Storage.{Bytes, Stream, Read, Source, going_on, end_of_file, content}
use fluenthub.Storage.Envelope.{
  eof, Aead, encrypted_magic, encrypt_stream, decrypt_stream, decrypt_loop, read_full, is_magic,
  put_uint32,
}
use fluenthub.Storage.Envelope.Frames.{IsAead, IsChunk, frames, plains, decrypt_stream-frames}
use fluenthub.Storage.Envelope.RoundTrip.{encrypt_stream_round_trip}
use fluenthub.Storage.Envelope.Endings.{decrypt_stream_ends}
use fluenthub.Storage.Envelope.Tests.Toy.{aead, aead-IsAead}

abbrev source : Source
source =
    record { bytes = 1 ∷ 2 ∷ 3 ∷ []; ending = going_on }
    ∷ record { bytes = []; ending = going_on }
    ∷ record { bytes = 4 ∷ []; ending = end_of_file }
    ∷ []

abbrev nonces : ℕ → Bytes
nonces k = k ∷ []

truncated_test :
    decrypt_stream aead (encrypted_magic ++ put_uint32 1 ++ 7 ∷ 7 ∷ 9 ∷ [])
    ≡ some (9 ∷ [], some eof)
unfolding decrypt_stream read_full fluenthub.Storage.Envelope.same_bytes decrypt_loop put_uint32
    fluenthub.Storage.Envelope.uint32
truncated_test = refl

encrypt_stream_round_trip_example :
    (out : Bytes) × (encrypt_stream aead nonces no_faults no_faults source ≡ ok out)
    × (decrypt_stream aead (out ++ 5 ∷ []) ≡ some (content source))
unfolding content
encrypt_stream_round_trip_example =
    encrypt_stream_round_trip aead nonces source (5 ∷ []) (λ k. refl) aead-IsAead
      (omega arith, (omega arith, (omega arith, tt))) refl

decrypt_stream-frames_example :
    decrypt_stream aead
      (encrypted_magic ++ frames aead ((8 ∷ [], 4 ∷ []) ∷ (7 ∷ [], 1 ∷ 2 ∷ []) ∷ []) (6 ∷ []))
    ≡ some (plains ((8 ∷ [], 4 ∷ []) ∷ (7 ∷ [], 1 ∷ 2 ∷ []) ∷ []), none)
decrypt_stream-frames_example =
    decrypt_stream-frames aead aead-IsAead ((8 ∷ [], 4 ∷ []) ∷ (7 ∷ [], 1 ∷ 2 ∷ []) ∷ []) (6 ∷ [])
      ((refl, omega arith, omega arith), ((refl, omega arith, omega arith), tt))

decrypt_stream_ends_example :
    (read : Stream) × (decrypt_stream aead (1 ∷ 2 ∷ []) ≡ some read)
    × (((rest : Bytes) × (is_magic (read_full 8 (1 ∷ 2 ∷ [])) ≡ some rest)
          × (decrypt_loop aead (suc (length rest) + 3) rest ≡ some read))
        ⊎ (read ≡ ([], some (reason "invalid encrypted object header"))))
decrypt_stream_ends_example = decrypt_stream_ends aead (1 ∷ 2 ∷ []) 3
