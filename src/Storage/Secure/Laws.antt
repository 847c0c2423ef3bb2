-- ===== src/Storage/Secure/Laws.antt =====
-- The secured storage keeps the promise of the storage that it wraps.
use fluenthub.Prelude.{
  ℕ, zero, suc, ◌+◌, ◌-◌, ◌^◌, ◌≤◌, ◌<◌, ◌≡◌, refl, sym, ap, ◌∙◌, String, true, none, some, [], ◌∷◌,
  arith, length, length-append, take, eqb, All, Bool-cases, inl, inr,
}
use mathlib.Core.List.{append-nil}
use fluenthub.Prelude.Int.{pos, add64-pos}
use fluenthub.Prelude.Action.{Result, Result-cases, ok}
use fluenthub.Storage.{Bytes, Source, content, copy_limited, IsStorage}
use fluenthub.Storage.Envelope.{Aead, read_full, same_bytes, encrypt_stream, decrypt_stream}
use fluenthub.Storage.Envelope.Frames.{IsAead}
use fluenthub.Storage.Envelope.RoundTrip.{
  IsRead, decrypt_stream-encrypt_stream, encrypt_stream-magic,
}
use fluenthub.Storage.Secure.{
  SecureObjectStorage, Environment, limit_of, quarantine, sealed_file, put, opened, open_object,
  has_magic,
}

length-take_full : (n : ℕ) (xs : Bytes) → n ≤ length xs → length (take n xs) ≡ n
length-take_full zero xs h = refl
length-take_full (suc n) [] h = omega (arith, h)
length-take_full (suc n) (x ∷ xs) h = omega (arith, length-take_full n xs (omega (arith, h)))

-- A copy that stays below its limit has copied everything.
pub copy_limited-content :
    (limit : ℕ) (source : Source)
    → (content source).1 ≡ none
    → length (copy_limited limit source).0 < limit
    → copy_limited limit source ≡ content source
unfolding copy_limited content
copy_limited-content zero source fine below = ground (arith, below)
copy_limited-content (suc n) [] fine below = refl
copy_limited-content (suc n) (read ∷ source) fine below =
    let bytes = read.bytes in
    let later = copy_limited (suc n - length bytes) source in
    let joined = length-append bytes later.0 in
    let full = length-take_full (suc n) bytes in
    let rest = copy_limited-content (suc n - length bytes) source in
    ground (arith, joined, full, rest)

module _ {S : Type 0} (new_gcm : Bytes → Result Aead) (storage : SecureObjectStorage S)
    (env : Environment) where
  -- What passes the quarantine is what the source has.
  quarantine-content :
      (source : Source) (plain : Bytes) (m : ℕ)
      → storage.max_bytes ≡ pos m
      → m + 1 < 2 ^ 63
      → (content source).1 ≡ none
      → quarantine new_gcm storage env source ≡ ok plain
      → content source ≡ (plain, none)
  unfolding quarantine limit_of
  quarantine-content source plain m max small fine done =
      let limit : limit_of storage.max_bytes ≡ m + 1 = rw (max, add64-pos m 1 small) refl in
      let written = copy_limited (limit_of storage.max_bytes) source in
      let accepted : length written.0 < m + 1 = ground (arith, max) in
      let whole =
        copy_limited-content (limit_of storage.max_bytes) source fine
          (omega (arith, accepted, limit)) in
      let same : plain ≡ written.0 = ground arith in ground (arith, whole, same)

  -- A file that was sealed is opened to what it was made of, whatever ends the reading of the storage's own.
  opened-sealed_file :
      (plain file : Bytes)
      → content (env.read_file plain) ≡ (plain, none)
      → All IsRead (env.read_file plain)
      → ((aead : Aead)
          → new_gcm storage.key ≡ ok aead
          → IsAead aead × ((k : ℕ) → length (env.nonces k) ≡ aead.nonce_size))
      → sealed_file new_gcm storage env plain ≡ ok file
      → opened new_gcm storage env (file, none) ≡ ok (plain, none)
  unfolding sealed_file opened read_full same_bytes
  opened-sealed_file plain file read pieces gcm done =
      elim (Bool-cases (eqb (length storage.key) 0)) [
        | inl unkeyed ↦ ground (arith, unkeyed)
        | inr keyed ↦ elim (Result-cases (new_gcm storage.key)) [
          | inl (aead, made) ↦
              let (laws, sized) = gcm aead made in
              let source = env.read_file plain in
              elim (Result-cases
                (encrypt_stream aead env.nonces env.random_fails env.write_fails source)) [
                  | inl (sealed, encrypted) ↦
                      let same : file ≡ sealed = ground (arith, keyed, made, encrypted) in
                      let (fine, reads) =
                        decrypt_stream-encrypt_stream aead env.nonces env.random_fails
                          env.write_fails sized source sealed [] laws pieces encrypted in
                      let (body, starts) =
                        encrypt_stream-magic aead env.nonces env.random_fails env.write_fails source
                          sealed encrypted in
                      let magic : has_magic file ≡ true = ap has_magic (same ∙ starts) in
                      let back : decrypt_stream aead file ≡ some (plain, none) =
                        ap (decrypt_stream aead) (same ∙ sym (append-nil sealed))
                        ∙ reads
                        ∙ ap some read in
                      ground (arith, keyed, made, magic, back)
                  | inr (e, failed) ↦ ground (arith, keyed, made, failed)
                ]
          | inr (e, failed) ↦ ground (arith, keyed, failed)
        ]
      ]

  -- Around a storage that keeps what it is given, the secured storage does so too: what Put has accepted, Open gives
  -- back in full, encrypted or not. It relies on an AEAD that undoes its sealing, on files that are read as they were
  -- written in pieces of at most a chunk, and on a limit below the greatest int64.
  pub open_object-put :
      (m : ℕ) (namespace key : String) (source : Source) (s : S)
      → IsStorage storage.inner
      → storage.max_bytes ≡ pos m
      → m + 1 < 2 ^ 63
      → ((bytes : Bytes) → content (env.read_file bytes) ≡ (bytes, none))
      → ((bytes : Bytes) → All IsRead (env.read_file bytes))
      → ((aead : Aead)
          → new_gcm storage.key ≡ ok aead
          → IsAead aead × ((k : ℕ) → length (env.nonces k) ≡ aead.nonce_size))
      → (content source).1 ≡ none
      → let (r, s') = put new_gcm storage env namespace source s in
        r ≡ ok key → (open_object new_gcm storage env key s').0 ≡ ok (content source)
  unfolding put open_object
  open_object-put m namespace key source s inner max small read pieces gcm fine done =
      elim (Result-cases (quarantine new_gcm storage env source)) [
        | inl (plain, passed) ↦ elim (Result-cases (sealed_file new_gcm storage env plain)) [
          | inl (file, sealed) ↦
              let kept =
                inner namespace key (env.read_file file) s (ap (λ r. r.1) (read file))
                  (ground (arith, passed, sealed)) in
              let back = opened-sealed_file plain file (read plain) (pieces plain) gcm sealed in
              let whole = quarantine-content source plain m max small fine passed in
              let kept_file = kept ∙ ap ok (read file) in
              ground (arith, passed, sealed, kept_file, back, whole)
          | inr (e, failed) ↦ ground (arith, passed, failed)
        ]
        | inr (e, failed) ↦ ground (arith, failed)
      ]
