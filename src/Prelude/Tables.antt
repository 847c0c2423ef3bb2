-- ===== src/Prelude/Tables.antt =====
-- Laws of the statements on tables.
use fluenthub.Prelude.{
  Bool-cases, inl, inr, subst, ◌+◌, ℕ, suc, zero, ◌≤◌, ◌≡◌, refl, Bool, true, false, ◌&&◌, none,
  some, List, [], ◌∷◌, arith, if◌then◌else◌, length, take, All, find_where, exists_where,
  update_where, insert, map, count_where,
}

module _ {ℓ} {A : Type ℓ} where
  pub exists_where-insert_old :
      (p : A → Bool) (x : A) (xs : List A)
      → exists_where p xs ≡ true
      → exists_where p (insert x xs) ≡ true
  unfolding exists_where insert
  exists_where-insert_old p x [] h = cc
  exists_where-insert_old p x (y ∷ xs) h = ground (arith, exists_where-insert_old p x xs)

  pub exists_where-insert_new :
      (p : A → Bool) (x : A) (xs : List A) → p x ≡ true → exists_where p (insert x xs) ≡ true
  unfolding exists_where insert
  exists_where-insert_new p x [] h = ground arith
  exists_where-insert_new p x (y ∷ xs) h = ground (arith, exists_where-insert_new p x xs h)

  pub exists_where_mono :
      (p q : A → Bool) (xs : List A)
      → ((x : A) → p x ≡ true → q x ≡ true)
      → exists_where p xs ≡ true
      → exists_where q xs ≡ true
  unfolding exists_where
  exists_where_mono p q [] imp h = h
  exists_where_mono p q (x ∷ xs) imp h = ground (arith, imp x, exists_where_mono p q xs imp)

  -- An update that does not touch what is tested.
  pub exists_where-update :
      (p q : A → Bool) (f : A → A) (xs : List A)
      → ((x : A) → p (f x) ≡ p x)
      → exists_where p (update_where q f xs) ≡ exists_where p xs
  unfolding exists_where update_where
  exists_where-update p q f [] h = refl
  exists_where-update p q f (x ∷ xs) h = ground (arith, h x, exists_where-update p q f xs h)

  pub find_where-insert :
      (p : A → Bool) (x : A) (xs : List A)
      → exists_where p xs ≡ false
      → find_where p (insert x xs) ≡ (if p x then some x else none)
  unfolding find_where exists_where insert
  find_where-insert p x [] h = refl
  find_where-insert p x (y ∷ xs) h = ground (arith, find_where-insert p x xs)

  pub find_where_sound :
      (p : A → Bool) (x : A) (xs : List A) → find_where p xs ≡ some x → p x ≡ true
  unfolding find_where
  find_where_sound p x [] h = cc
  find_where_sound p x (y ∷ xs) h = ground (arith, find_where_sound p x xs)

  pub All-update {κ} :
      (P Q : A → Type κ) (q : A → Bool) (f : A → A) (xs : List A)
      → All P xs
      → ((x : A) → q x ≡ true → P x → Q (f x))
      → ((x : A) → q x ≡ false → P x → Q x)
      → All Q (update_where q f xs)
  unfolding update_where
  All-update P Q q f [] h hit miss = tt
  All-update P Q q f (x ∷ xs) (px, rest) hit miss =
      (hits (q x) refl, All-update P Q q f xs rest hit miss)
    where
      hits : (b : Bool) → q x ≡ b → Q (if b then f x else x)
      hits true e = hit x e px
      hits false e = miss x e px

  pub All-map {κ} : (P Q : A → Type κ) (xs : List A) → All P xs → ((x : A) → P x → Q x) → All Q xs
  All-map P Q [] h f = tt
  All-map P Q (x ∷ xs) h f = (f x h.0, All-map P Q xs h.1 f)

  pub length-update :
      (q : A → Bool) (f : A → A) (xs : List A) → length (update_where q f xs) ≡ length xs
  unfolding update_where
  length-update q f [] = refl
  length-update q f (x ∷ xs) = omega (arith, length-update q f xs)

  pub length-take_le : (n : ℕ) (xs : List A) → length (take n xs) ≤ n
  length-take_le zero xs = omega arith
  length-take_le (suc n) [] = omega arith
  length-take_le (suc n) (x ∷ xs) = omega (arith, length-take_le n xs)

pub length-map {ℓ κ} :
    {A : Type ℓ} {B : Type κ} (f : A → B) (xs : List A) → length (map f xs) ≡ length xs
length-map f [] = refl
length-map f (x ∷ xs) = omega (arith, length-map f xs)

module _ {ℓ} {A : Type ℓ} where
  pub find_where-update :
      (p : A → Bool) (f : A → A) (x : A) (xs : List A)
      → ((y : A) → p (f y) ≡ p y)
      → find_where p xs ≡ some x
      → find_where p (update_where p f xs) ≡ some (f x)
  unfolding find_where update_where
  find_where-update p f x [] keeps h = cc
  find_where-update p f x (y ∷ xs) keeps h =
      ground (arith, keeps y, find_where-update p f x xs keeps)

  pub exists_where-find_some :
      (p : A → Bool) (x : A) (xs : List A) → find_where p xs ≡ some x → exists_where p xs ≡ true
  unfolding find_where exists_where
  exists_where-find_some p x [] h = cc
  exists_where-find_some p x (y ∷ xs) h = ground (arith, exists_where-find_some p x xs)

  pub exists_where-find_none :
      (p : A → Bool) (xs : List A) → find_where p xs ≡ none → exists_where p xs ≡ false
  unfolding find_where exists_where
  exists_where-find_none p [] h = refl
  exists_where-find_none p (y ∷ xs) h = ground (arith, exists_where-find_none p xs)

  -- No row satisfies `p` once the rows that `q` selects are changed, and only they could.
  pub exists_where-update_none :
      (p q : A → Bool) (f : A → A) (xs : List A)
      → ((x : A) → q x ≡ true → p (f x) ≡ false)
      → ((x : A) → q x ≡ false → p x ≡ false)
      → exists_where p (update_where q f xs) ≡ false
  unfolding exists_where update_where
  exists_where-update_none p q f [] hit miss = refl
  exists_where-update_none p q f (x ∷ xs) hit miss =
      ground (arith, hit x, miss x, exists_where-update_none p q f xs hit miss)

  pub find_where-none :
      (p : A → Bool) (xs : List A) → exists_where p xs ≡ false → find_where p xs ≡ none
  unfolding find_where exists_where
  find_where-none p [] h = refl
  find_where-none p (x ∷ xs) h = ground (arith, find_where-none p xs)

  -- An update of other rows is not seen.
  pub find_where-update_other :
      (p q : A → Bool) (f : A → A) (xs : List A)
      → ((x : A) → q x ≡ true → (p x ≡ false) × (p (f x) ≡ false))
      → find_where p (update_where q f xs) ≡ find_where p xs
  unfolding find_where update_where
  find_where-update_other p q f [] other = refl
  find_where-update_other p q f (x ∷ xs) other =
      ground (arith, other x, find_where-update_other p q f xs other)

  pub find_where-insert_other :
      (p : A → Bool) (x : A) (xs : List A)
      → p x ≡ false
      → find_where p (insert x xs) ≡ find_where p xs
  unfolding find_where insert
  find_where-insert_other p x [] h = ground arith
  find_where-insert_other p x (y ∷ xs) h = ground (arith, find_where-insert_other p x xs h)

  pub length-insert : (x : A) (xs : List A) → length (insert x xs) ≡ length xs + 1
  unfolding insert
  length-insert x [] = refl
  length-insert x (y ∷ xs) = omega (arith, length-insert x xs)

module _ {ℓ} {A : Type ℓ} where
  pub find_where-all {κ} :
      (P : A → Type κ) (p : A → Bool) (x : A) (xs : List A)
      → All P xs
      → find_where p xs ≡ some x
      → P x
  unfolding find_where
  find_where-all P p x [] h found = cc
  find_where-all P p x (y ∷ xs) (py, rest) found = elim (Bool-cases (p y)) [
    | inl hit ↦ let same : y ≡ x = cc in subst P same py
    | inr miss ↦ find_where-all P p x xs rest (ground arith)
  ]

  -- A row that is found is not among those of which there is none.
  pub find_where-exists_none :
      (p q : A → Bool) (x : A) (xs : List A)
      → exists_where p xs ≡ false
      → find_where q xs ≡ some x
      → p x ≡ false
  unfolding find_where exists_where
  find_where-exists_none p q x [] h found = cc
  find_where-exists_none p q x (y ∷ xs) h found = ground (arith, find_where-exists_none p q x xs)

  -- A further test that the row found passes.
  pub find_where-and :
      (p q : A → Bool) (x : A) (xs : List A)
      → find_where p xs ≡ some x
      → q x ≡ true
      → find_where (λ y. p y && q y) xs ≡ some x
  unfolding find_where
  find_where-and p q x [] found h = found
  find_where-and p q x (y ∷ xs) found h = ground (arith, find_where-and p q x xs)

  pub exists_where_none_mono :
      (p q : A → Bool) (xs : List A)
      → ((x : A) → p x ≡ false → q x ≡ false)
      → exists_where p xs ≡ false
      → exists_where q xs ≡ false
  unfolding exists_where
  exists_where_none_mono p q [] imp h = refl
  exists_where_none_mono p q (x ∷ xs) imp h =
      ground (arith, imp x, exists_where_none_mono p q xs imp)

  -- Rows that an UPDATE can take away are among those that it affects.
  pub count_where-update :
      (p q : A → Bool) (f : A → A) (xs : List A)
      → count_where p xs ≤ count_where p (update_where q f xs) + count_where q xs
  unfolding count_where update_where
  count_where-update p q f [] = omega arith
  count_where-update p q f (x ∷ xs) = ground (arith, count_where-update p q f xs)

  -- An UPDATE that affects none of the rows takes none away.
  pub count_where-update_apart :
      (p q : A → Bool) (f : A → A) (xs : List A)
      → All (λ x. (p x && q x) ≡ false) xs
      → count_where p xs ≤ count_where p (update_where q f xs)
  unfolding count_where update_where
  count_where-update_apart p q f [] h = omega arith
  count_where-update_apart p q f (x ∷ xs) (px, rest) =
      ground (arith, px, count_where-update_apart p q f xs rest)

  pub count_where_ext :
      (p q : A → Bool) (xs : List A) → ((x : A) → p x ≡ q x) → count_where p xs ≡ count_where q xs
  unfolding count_where
  count_where_ext p q [] h = refl
  count_where_ext p q (x ∷ xs) h = ground (arith, h x, count_where_ext p q xs h)
