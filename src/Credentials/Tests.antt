-- ===== src/Credentials/Tests.antt =====
-- A file that creates one account and resets another.
use db_migrate.MariaDb.Files.Annotations.{is_empty}
use db_migrate.Credentials.{Account, Existing, keys, CredentialEvent, record_credential_events}
use db_migrate.Credentials.Paired.{Belongs, record_credential_events-Belongs}
use db_migrate.Base.{
  ℕ, ◌≡◌, refl, Bool, true, false, none, some, List, [], ◌∷◌, ◌++◌, map, length, get_elem?, Text,
  codes,
}

abbrev account : Text → Bool → Account
account name is_reset = record {
  name = name;
  host = some (codes "DB1");
  is_reset = is_reset;
  replaces = false;
  expires_on_first_login = false;
  statement = 0;
}

abbrev accounts : List Account
accounts = account (codes "app") false ∷ account (codes "report") true ∷ []

abbrev passwords : List Text
passwords = codes "one" ∷ codes "two" ∷ []

abbrev existing : Existing
existing = keys (codes "report@db1" ∷ [])

handed_out :
    map
      (λ (e : CredentialEvent). e.password)
      (record_credential_events [] accounts passwords existing true)
    ≡ some (codes "one") ∷ some (codes "two") ∷ []
unfolding record_credential_events
handed_out = refl

none_handed_out :
    map
      (λ (e : CredentialEvent). e.password)
      (record_credential_events [] accounts (codes "one" ∷ []) existing true)
    ≡ none ∷ none ∷ []
unfolding record_credential_events
none_handed_out = refl

record_credential_events-Belongs_example :
    (recorded : List CredentialEvent) × (record_credential_events [] accounts passwords existing
        true
      ≡ [] ++ recorded)
    × (length recorded ≡ 2)
    × ((j : ℕ) (e : CredentialEvent)
        → get_elem? recorded j ≡ some e
        → (a : Account) × (get_elem? accounts j ≡ some a) × Belongs passwords existing true j a e)
unfolding is_empty
record_credential_events-Belongs_example =
    record_credential_events-Belongs [] accounts passwords existing (refl, (refl, tt))
