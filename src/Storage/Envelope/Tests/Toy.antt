-- ===== src/Storage/Envelope/Tests/Toy.antt =====
-- An AEAD that appends its nonce of one byte, and checks it: a stand-in with the promises of a true one.
use fluenthub.Prelude.{
  ◌≡◌, Option, none, some, [], ◌∷◌, ◌++◌, if◌then◌else◌, length, length-append, arith,
}
use fluenthub.Storage.{Bytes}
use fluenthub.Storage.Envelope.{Aead, same_bytes}
use fluenthub.Storage.Envelope.Frames.{IsAead}

abbrev toy_unseal : Bytes → Bytes → Option Bytes
toy_unseal nonce [] = none
toy_unseal nonce (x ∷ xs) = if same_bytes nonce (x ∷ []) then some xs else none

abbrev pub aead : Aead
aead = record {
  nonce_size = 1;
  overhead = 1;
  seal = λ nonce plain extra. nonce ++ plain;
  unseal = λ nonce sealed extra. toy_unseal nonce sealed;
}

one_byte : (nonce plain : Bytes) → length nonce ≡ 1 → toy_unseal nonce (nonce ++ plain) ≡ some plain
unfolding same_bytes
one_byte [] plain h = cc
one_byte (x ∷ []) plain h = ground arith
one_byte (x ∷ y ∷ ys) plain h = ground (arith, h)

pub aead-IsAead : IsAead aead
aead-IsAead = record {
  unseal-seal = λ nonce plain extra h. one_byte nonce plain h;
  length-seal = λ nonce plain extra h. omega (arith, length-append nonce plain, h);
}
