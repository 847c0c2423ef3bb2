-- ===== src/Config/Laws.antt =====
-- What a configuration that is loaded guarantees.
use fluenthub.Prelude.{
  ℕ, ◌*◌, ◌≤◌, ◌≡◌, ◌⊎◌, sym, subst, ap, ◌∙◌, inl, inr, String, Bool, true, false, Option, none,
  some, List, [], ◌==◌, arith, length, ◌||◌, Option-cases, Bool-cases, if◌then◌else◌,
}
use fluenthub.Prelude.Int.{ℤ, pos, negsuc, mul64, mul64-pos, ltb_ℤ}
use fluenthub.Prelude.Action.{ok, err, reason, is_ok, guard-ok}
use fluenthub.Storage.{ObjectStorage}
use fluenthub.Storage.Secure.{MalwareScanner, new_secure}
use fluenthub.Config.{
  Config, load, read, check, wants_secret, wants_live_provider, wants_live_kit,
  wants_billing_provider, wants_asaas, wants_scanner, wants_key, wants_protection,
}

-- What the checks leave of a key and of production.
abbrev IsChecked : (String → Option (List ℕ)) → Config → Type 0
IsChecked decode c =
    ((c.storage_encryption_key == "" ≡ true)
      ⊎ ((key : List ℕ) × (decode c.storage_encryption_key ≡ some key) × (length key ≡ 32)))
    × ((c.environment == "production" ≡ false)
        ⊎ ((c.session_secret == "change-me" ≡ false)
            × (c.storage_encryption_key == "" ≡ false)
            × (c.malware_scanner == "clamav" ≡ true)))

module _ (getenv : String → String) (parse_int : String → Option ℤ)
    (decode : String → Option (List ℕ)) (c : Config) where
  check-ok : (d : Config) → check getenv parse_int decode c ≡ ok d → (d ≡ c) × IsChecked decode d
  unfolding check
  check-ok d h =
      let (has_secret, h0) = guard-ok (wants_secret getenv parse_int decode c) _ _ d h in
      let (has_live_provider, h1) =
        guard-ok (wants_live_provider getenv parse_int decode c) _ _ d h0 in
      let (has_live_kit, h2) = guard-ok (wants_live_kit getenv parse_int decode c) _ _ d h1 in
      let (has_billing_provider, h3) =
        guard-ok (wants_billing_provider getenv parse_int decode c) _ _ d h2 in
      let (has_asaas, h4) = guard-ok (wants_asaas getenv parse_int decode c) _ _ d h3 in
      let (has_scanner, h5) = guard-ok (wants_scanner getenv parse_int decode c) _ _ d h4 in
      let (has_key, h6) = guard-ok (wants_key getenv parse_int decode c) _ _ d h5 in
      let (has_protection, h7) = guard-ok (wants_protection getenv parse_int decode c) _ _ d h6 in
      let same : d ≡ c = ground (arith, h7) in
      (
        same,
        subst (IsChecked decode) (sym same) (
          elim (Bool-cases (c.storage_encryption_key == "")) [
            | inl unset ↦ inl unset
            | inr given ↦ elim (Option-cases (decode c.storage_encryption_key)) [
              | inl garbled ↦ ground (arith, garbled, has_key)
              | inr (key, decoded) ↦ inr (key, decoded, ground (arith, decoded, has_key))
            ]
          ],
          ground (arith, has_secret, has_protection),
        ),
      )

-- The limit of an upload, from its megabytes.
upload_limit :
    (max_mb : ℤ)
    → ltb_ℤ max_mb (pos 1) ≡ false
    → ltb_ℤ (pos 500) max_mb ≡ false
    → (n : ℕ) × (mul64 (mul64 max_mb (pos 1024)) (pos 1024) ≡ pos n)
      × (1048576 ≤ n)
      × (n ≤ 500 * 1048576)
upload_limit (pos m) low high =
    let first : mul64 (pos m) (pos 1024) ≡ pos (m * 1024) =
      mul64-pos m 1024 (ground (arith, high)) in
    (
      m * 1024 * 1024,
      ap (λ x. mul64 x (pos 1024)) first ∙ mul64-pos (m * 1024) 1024 (ground (arith, high)),
      ground (arith, low),
      ground (arith, high),
    )
upload_limit (negsuc n) low high = ground (arith, low)

-- The size of the key that the storage gets.
key_sized :
    (decode : String → Option (List ℕ)) (encryption_key : String) (key : List ℕ)
    → ((encryption_key == "" ≡ true)
        ⊎ ((k : List ℕ) × (decode encryption_key ≡ some k) × (length k ≡ 32)))
    → (if encryption_key == "" then some [] else decode encryption_key) ≡ some key
    → ((encryption_key == "" ≡ true) × (length key ≡ 0)) ⊎ (length key ≡ 32)
key_sized decode encryption_key key (inl unset) keyed = inl (unset, ground (arith, unset))
key_sized decode encryption_key key (inr (k, decoded, sized)) keyed =
    elim (Bool-cases (encryption_key == "")) [
      | inl unset ↦ inl (unset, ground (arith, unset))
      | inr given ↦
          let same : k ≡ key = ground (arith, given, decoded) in inr (sym (ap length same) ∙ sized)
    ]

either_size : {P : Type 0} {n : ℕ} → (P × (n ≡ 0)) ⊎ (n ≡ 32) → (n ≡ 0) ⊎ (n ≡ 32)
either_size (inl (p, h)) = inl h
either_size (inr h) = inr h

protected :
    (c : Config) (key : List ℕ)
    → ((c.storage_encryption_key == "" ≡ true) × (length key ≡ 0)) ⊎ (length key ≡ 32)
    → ((c.environment == "production" ≡ false)
        ⊎ ((c.session_secret == "change-me" ≡ false)
            × (c.storage_encryption_key == "" ≡ false)
            × (c.malware_scanner == "clamav" ≡ true)))
    → (c.environment == "production" ≡ false)
      ⊎ ((c.session_secret == "change-me" ≡ false)
          × (length key ≡ 32)
          × (c.malware_scanner == "clamav" ≡ true))
protected c key sized (inl other) = inl other
protected c key (inr sized) (inr (secret, given, scans)) = inr (secret, sized, scans)
protected c key (inl (unset, empty)) (inr (secret, given, scans)) = ground (arith, unset, given)

new_secure_accepts :
    {S : Type 0} (inner : ObjectStorage S) (scanner : Option MalwareScanner) (key : List ℕ)
    (limit : ℤ) (n : ℕ) (legacy : Bool)
    → limit ≡ pos n
    → 1048576 ≤ n
    → (length key ≡ 0) ⊎ (length key ≡ 32)
    → is_ok (new_secure (some inner) scanner key limit legacy) ≡ true
unfolding new_secure
new_secure_accepts inner scanner key limit n legacy is_limit low (inl size) =
    ground (arith, is_limit, low, size)
new_secure_accepts inner scanner key limit n legacy is_limit low (inr size) =
    ground (arith, is_limit, low, size)

module _ (getenv : String → String) (parse_int : String → Option ℤ)
    (decode : String → Option (List ℕ)) (c : Config) where
  -- A configuration that is loaded limits an upload to between 1 and 500 megabytes, and in production it has another
  -- session secret than the default, an encryption key of 32 bytes and the scanner; and the secured storage accepts
  -- its limit with its key, or with no key if none is set.
  pub load-new_secure :
      {S : Type 0} (inner : ObjectStorage S) (scanner : Option MalwareScanner) (key : List ℕ)
      → load getenv parse_int decode ≡ ok c
      → (if c.storage_encryption_key == "" then some [] else decode c.storage_encryption_key)
        ≡ some key
      → ((n : ℕ) × (c.max_upload_bytes ≡ pos n) × (1048576 ≤ n) × (n ≤ 500 * 1048576))
        × ((c.environment == "production" ≡ false)
            ⊎ ((c.session_secret == "change-me" ≡ false)
                × (length key ≡ 32)
                × (c.malware_scanner == "clamav" ≡ true)))
        × (is_ok (new_secure (some inner) scanner key c.max_upload_bytes c.allow_legacy_plaintext)
            ≡ true)
  unfolding load read
  load-new_secure inner scanner key loaded keyed =
      let given =
        if getenv "MAX_UPLOAD_MB" == ""
        then some (pos 50)
        else parse_int (getenv "MAX_UPLOAD_MB") in
      elim (Option-cases given) [
        | inl garbled ↦ ground (arith, garbled)
        | inr (max_mb, parsed) ↦
            let tested : (if ltb_ℤ max_mb (pos 1) || ltb_ℤ (pos 500) max_mb
                  then err (reason "MAX_UPLOAD_MB must be between 1 and 500")
                  else check getenv parse_int decode (read getenv parse_int decode max_mb))
                ≡ ok c =
              ap
                (λ o. elim o [
                  | none ↦ err (reason "MAX_UPLOAD_MB must be between 1 and 500")
                  | some mb ↦
                      if ltb_ℤ mb (pos 1) || ltb_ℤ (pos 500) mb
                      then err (reason "MAX_UPLOAD_MB must be between 1 and 500")
                      else check getenv parse_int decode (read getenv parse_int decode mb)
                ])
                (sym parsed)
              ∙ loaded in
            let (in_range, checked) =
              guard-ok (ltb_ℤ max_mb (pos 1) || ltb_ℤ (pos 500) max_mb) _ _ c tested in
            let (same, (keys, production)) =
              check-ok getenv parse_int decode (read getenv parse_int decode max_mb) c checked in
            let (n, is_limit, low, high) =
              upload_limit max_mb (ground (arith, in_range)) (ground (arith, in_range)) in
            let limit : c.max_upload_bytes ≡ pos n = ap (λ x. x.max_upload_bytes) same ∙ is_limit in
            let sized = key_sized decode c.storage_encryption_key key keys keyed in
            (
              (n, limit, low, high),
              protected c key sized production,
              new_secure_accepts inner scanner key c.max_upload_bytes n c.allow_legacy_plaintext
                  limit low (either_size sized),
            )
      ]
