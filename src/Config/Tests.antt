-- ===== src/Config/Tests.antt =====
-- A configuration of production.
use fluenthub.Prelude.{
  ℕ, ◌*◌, ◌≤◌, ◌≡◌, ◌⊎◌, refl, String, true, false, Option, none, some, List, [], ◌∷◌, ◌==◌,
  if◌then◌else◌, length,
}
use fluenthub.Prelude.Int.{ℤ, pos}
use fluenthub.Prelude.Action.{ok, is_ok, no_faults}
use fluenthub.Storage.Local.{local}
use fluenthub.Storage.Local.Tests.{paths, storage}
use fluenthub.Storage.Secure.{new_secure}
use fluenthub.Config.{Config, read, load}
use fluenthub.Config.Laws.{load-new_secure}

abbrev getenv : String → String
getenv key =
    if key == "APP_ENV"
    then "production"
    else if key == "SESSION_SECRET"
    then "a secret"
    else if key == "STORAGE_ENCRYPTION_KEY"
    then "an encoded key"
    else if key == "MALWARE_SCANNER"
    then "clamav"
    else ""

abbrev parse_int : String → Option ℤ
parse_int s = none

abbrev key : List ℕ
key =
    7 ∷ 7 ∷ 7 ∷ 7 ∷ 7 ∷ 7 ∷ 7 ∷ 7 ∷ 7 ∷ 7 ∷ 7 ∷ 7 ∷ 7 ∷ 7 ∷ 7 ∷ 7 ∷ 7 ∷ 7 ∷ 7 ∷ 7 ∷ 7 ∷ 7 ∷ 7 ∷ 7
    ∷ 7 ∷ 7 ∷ 7 ∷ 7 ∷ 7 ∷ 7 ∷ 7 ∷ 7 ∷ []

abbrev decode : String → Option (List ℕ)
decode s = some key

abbrev config : Config
config = read getenv parse_int decode (pos 50)

loaded_test : load getenv parse_int decode ≡ ok config
unfolding load fluenthub.Config.check read fluenthub.Config.env
loaded_test = refl

keyed_test :
    (if config.storage_encryption_key == "" then some [] else decode config.storage_encryption_key)
    ≡ some key
unfolding read
keyed_test = refl

refused_test :
    is_ok (load (λ k. if k == "APP_ENV" then "production" else "") parse_int decode) ≡ false
unfolding load fluenthub.Config.check read fluenthub.Config.env
refused_test = refl

load-new_secure_example :
    ((n : ℕ) × (config.max_upload_bytes ≡ pos n) × (1048576 ≤ n) × (n ≤ 500 * 1048576))
    × ((config.environment == "production" ≡ false)
        ⊎ ((config.session_secret == "change-me" ≡ false)
            × (length key ≡ 32)
            × (config.malware_scanner == "clamav" ≡ true)))
    × (is_ok (
          new_secure
            (some (local paths storage no_faults "a1"))
            none
            key
            config.max_upload_bytes
            config.allow_legacy_plaintext)
        ≡ true)
load-new_secure_example =
    load-new_secure getenv parse_int decode config (local paths storage no_faults "a1") none key
      loaded_test keyed_test
