-- ===== src/Storage/Envelope/Endings.antt =====
-- decryptStream ends on every input.
use fluenthub.Prelude.{
  ℕ, zero, suc, ◌+◌, ◌<◌, ◌≡◌, ◌⊎◌, inl, inr, refl, ap, ◌∙◌, none, some, [], ◌++◌, ltb, eqb, arith,
  length, Option-cases, Bool-cases,
}
use fluenthub.Prelude.Action.{reason}
use fluenthub.Storage.{Bytes, Stream}
use fluenthub.Storage.Envelope.{
  Aead, encryption_chunk, uint32, read_full, short_read, write_before, decrypt_loop, decrypt_stream,
  is_magic,
}
use fluenthub.Storage.Envelope.Frames.{read_full_uses, decrypt_loop-round}

-- What a round does: it ends, or it writes the bytes of a chunk, and goes on with fewer bytes.
round-cases :
    (aead : Aead) (source : Bytes)
    → ((read : Stream) × ((fuel : ℕ) → decrypt_loop aead (suc fuel) source ≡ some read))
      ⊎ ((plain rest : Bytes) × (length rest < length source)
          × ((fuel : ℕ)
              → decrypt_loop aead (suc fuel) source
                ≡ write_before plain (decrypt_loop aead fuel rest)))
unfolding decrypt_loop
round-cases aead source = elim (Option-cases (read_full 4 source)) [
  | inl short ↦ inl (([], some (short_read source)), λ fuel. ground (arith, short))
  | inr ((size, after_size), sized) ↦ elim (Bool-cases (eqb (uint32 size) 0)) [
    | inl ended ↦ inl (([], none), λ fuel. ground (arith, sized, ended))
    | inr going ↦ elim (Bool-cases (ltb encryption_chunk (uint32 size))) [
      | inl large ↦ inl (
        ([], some (reason "invalid encrypted object chunk")),
        λ fuel. ground (arith, sized, going, large),
      )
      | inr small ↦ elim (Option-cases (read_full aead.nonce_size after_size)) [
        | inl short ↦
            inl (
              ([], some (short_read after_size)),
              λ fuel. ground (arith, sized, going, small, short),
            )
        | inr ((nonce, after_nonce), nonced) ↦
            elim (Option-cases (read_full (uint32 size + aead.overhead) after_nonce)) [
              | inl short ↦ inl (
                ([], some (short_read after_nonce)),
                λ fuel. ground (arith, sized, going, small, nonced, short),
              )
              | inr ((sealed, rest), seals) ↦ elim (Option-cases (aead.unseal nonce sealed size)) [
                | inl forged ↦ inl (
                  ([], some (reason "encrypted object authentication failed")),
                  λ fuel. ground (arith, sized, going, small, nonced, seals, forged),
                )
                | inr (plain, opened) ↦ inr (
                  plain,
                  rest,
                  omega (
                    arith,
                    read_full_uses 4 source size after_size sized,
                    read_full_uses aead.nonce_size after_size nonce after_nonce nonced,
                    read_full_uses (uint32 size + aead.overhead) after_nonce sealed rest seals,
                  ),
                  λ fuel.
                      decrypt_loop-round aead fuel source size after_size nonce after_nonce sealed
                        rest plain sized going small nonced seals opened,
                )
              ]
            ]
      ]
    ]
  ]
]

-- On more fuel than bytes the rounds end, and any more fuel gives the same.
decrypt_loop_ends :
    (aead : Aead) (fuel extra : ℕ) (source : Bytes)
    → length source < fuel
    → (read : Stream) × (decrypt_loop aead fuel source ≡ some read)
      × (decrypt_loop aead (fuel + extra) source ≡ some read)
decrypt_loop_ends aead zero extra source lt = ground (arith, lt)
decrypt_loop_ends aead (suc fuel) extra source lt = elim (round-cases aead source) [
  | inl (read, ends) ↦ (read, ends fuel, rw (towards fuel extra) (ends (fuel + extra)))
  | inr (plain, rest, less, goes_on) ↦
      let (later, ends, ends_too) =
        decrypt_loop_ends aead fuel extra rest (omega (arith, less, lt)) in
      (
        (plain ++ later.0, later.1),
        goes_on fuel ∙ ap (write_before plain) ends,
        rw (towards fuel extra) (goes_on (fuel + extra) ∙ ap (write_before plain) ends_too),
      )
]
  where
    towards : (a b : ℕ) → suc a + b ≡ suc (a + b)
    towards a b = omega arith

-- decryptStream returns on every input, an envelope or not: its rounds are at most one for each byte after the
-- header and one more, and no larger bound on them gives another result.
pub decrypt_stream_ends :
    (aead : Aead) (source : Bytes) (extra : ℕ)
    → (read : Stream) × (decrypt_stream aead source ≡ some read)
      × (((rest : Bytes) × (is_magic (read_full 8 source) ≡ some rest)
            × (decrypt_loop aead (suc (length rest) + extra) rest ≡ some read))
          ⊎ (read ≡ ([], some (reason "invalid encrypted object header"))))
unfolding decrypt_stream
decrypt_stream_ends aead source extra = elim (Option-cases (is_magic (read_full 8 source))) [
  | inl other ↦
      (([], some (reason "invalid encrypted object header")), ground (arith, other), inr refl)
  | inr (rest, header) ↦
      let (read, ends, ends_too) =
        decrypt_loop_ends aead (suc (length rest)) extra rest (omega arith) in
      (read, ground (arith, header, ends), inl (rest, header, ends_too))
]
