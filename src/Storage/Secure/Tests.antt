-- ===== src/Storage/Secure/Tests.antt =====
-- A secured storage around a local one.
use fluenthub.Prelude.{
  ℕ, ◌+◌, ◌^◌, ◌<◌, ◌≡◌, refl, ap, subst, length, String, true, false, some, none, List, [], ◌∷◌,
  ◌++◌, arith, All,
}
use fluenthub.Prelude.Int.{pos}
use fluenthub.Prelude.Action.{Result, ok, err, no_faults}
use fluenthub.Storage.{Bytes, Read, Source, going_on, end_of_file, content}
use fluenthub.Storage.Envelope.{Aead, encrypted_magic}
use fluenthub.Storage.Envelope.Frames.{IsAead, plains}
use fluenthub.Storage.Envelope.RoundTrip.{IsRead}
use fluenthub.Storage.Envelope.Tests.Toy.{aead, aead-IsAead}
use fluenthub.Storage.Local.{File, Files, local}
use fluenthub.Storage.Local.Laws.{local-IsStorage}
use fluenthub.Storage.Local.Tests.{paths, storage, source}
use fluenthub.Storage.Secure.{SecureObjectStorage, Environment, put, open_object, opened}
use fluenthub.Storage.Secure.Truncated.{unended, opened_truncated}
use fluenthub.Storage.Secure.Laws.{open_object-put}

unfoldable single_bytes : Bytes → Source
single_bytes [] = []
single_bytes (x ∷ xs) = record { bytes = x ∷ []; ending = going_on } ∷ single_bytes xs

single_bytes-content : (bytes : Bytes) → content (single_bytes bytes) ≡ (bytes, none)
unfolding single_bytes content
single_bytes-content [] = refl
single_bytes-content (x ∷ xs) = ap (λ read. (x ∷ read.0, read.1)) (single_bytes-content xs)

single_bytes-IsRead : (bytes : Bytes) → All IsRead (single_bytes bytes)
unfolding single_bytes
single_bytes-IsRead [] = tt
single_bytes-IsRead (x ∷ xs) = (omega arith, single_bytes-IsRead xs)

abbrev env : Environment
env = record {
  fails = no_faults;
  nonces = λ k. k ∷ [];
  random_fails = no_faults;
  write_fails = no_faults;
  read_file = single_bytes;
}

abbrev secured : SecureObjectStorage Files
secured = record {
  inner = local paths (record storage { max_bytes = pos 100 }) no_faults "a1";
  scanner = none;
  key = 1 ∷ [];
  max_bytes = pos 4;
  allow_legacy_plaintext = false;
}

stored_test : (put (λ key. ok aead) secured env "lessons" source []).0 ≡ ok "lessons/a1"
unfolding put fluenthub.Storage.Secure.quarantine fluenthub.Storage.copy_limited
    fluenthub.Storage.Secure.limit_of fluenthub.Prelude.Int.add64 fluenthub.Prelude.Int.wrap64
    fluenthub.Prelude.Int.◌+ℤ◌ fluenthub.Storage.Secure.sealed_file
    fluenthub.Storage.Envelope.encrypt_stream fluenthub.Storage.Envelope.encrypt_loop single_bytes
    fluenthub.Storage.Envelope.finish local fluenthub.Storage.Local.valid_namespace
    fluenthub.Storage.Local.all_valid fluenthub.Storage.Local.safe_path
    fluenthub.Storage.Local.has_dots fluenthub.Storage.Envelope.frame
    fluenthub.Storage.Envelope.put_uint32 fluenthub.Storage.Local.put
    fluenthub.Storage.Local.uploaded
stored_test = refl

content_test : (content source).1 ≡ none
unfolding content
content_test = refl

abbrev from_ok : Aead → Result Aead → Aead
from_ok other (ok a) = a
from_ok other (err e) = other

toy_sized :
    (other : Aead)
    → ◌≡◌ {A = Result Aead} (ok aead) (ok other)
    → IsAead other × ((k : ℕ) → length (env.nonces k) ≡ other.nonce_size)
toy_sized other h =
    subst (λ (a : Aead). IsAead a × ((k : ℕ) → length (env.nonces k) ≡ a.nonce_size))
      (ap (from_ok aead) h) (aead-IsAead, λ k. refl)

open_object-put_example :
    (open_object
      (λ key. ok aead)
      secured
      env
      "lessons/a1"
      (put (λ key. ok aead) secured env "lessons" source []).1).0
    ≡ ok (content source)
open_object-put_example =
    open_object-put (λ key. ok aead) secured env 4 "lessons" "lessons/a1" source []
      (local-IsStorage paths (record storage { max_bytes = pos 100 }) no_faults "a1" 100 refl
        (omega arith) refl)
      refl (omega arith) single_bytes-content single_bytes-IsRead toy_sized content_test stored_test

opened_truncated_example :
    opened
      (λ key. ok aead)
      secured
      env
      (encrypted_magic ++ unended aead ((7 ∷ [], 1 ∷ 2 ∷ []) ∷ []), none)
    ≡ ok (plains ((7 ∷ [], 1 ∷ 2 ∷ []) ∷ []), none)
opened_truncated_example =
    opened_truncated aead aead-IsAead (λ key. ok aead) secured env ((7 ∷ [], 1 ∷ 2 ∷ []) ∷ []) refl
      refl ((refl, omega arith, omega arith), tt)
