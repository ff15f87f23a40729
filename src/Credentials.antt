-- ===== src/Credentials.antt =====
-- src/core/repeatable-runner.js: accountKey and recordCredentialEvents on the accounts of a file,
-- which are the migration's own report or were parsed from its text.
pub mod Paired
mod Tests
use db_migrate.MariaDb.Files.Annotations.{lower, is_empty}
use db_migrate.Base.{
  ℕ, suc, ◌+◌, ◌-◌, Bool, true, false, not, ◌&&◌, ◌||◌, Option, none, some, List, [], ◌∷◌, ◌++◌,
  map, ◌==◌, if◌then◌else◌, length, get_elem?, Text, contains, truthy,
}

-- an account whose password a file sets; without a name it could not be identified
pub record Account : Type 0 where
  pub name : Text
  pub host : Option Text
  pub is_reset : Bool
  pub replaces : Bool
  pub expires_on_first_login : Bool
  pub statement : ℕ

-- which accounts existed before: all or none of them, or those of a set of keys
pub data Existing : Type 0 where
  every : Bool → Existing
  keys : List Text → Existing

pub data EventType : Type 0 where
  new password_changed no_change : EventType

pub data Username : Type 0 where
  identity : Text → Option Text → Username
  unrecognized : ℕ → Username  -- with the number of its statement

pub record CredentialEvent : Type 0 where
  pub type : EventType
  pub username : Username
  pub password : Option Text
  pub on_first_login : Bool
  pub password_unmatched : Bool

-- `accountKey(name, host)`
unfoldable pub account_key : Text → Option Text → Text
unfolding lower
account_key name host = elim (truthy host) [ none ↦ name | some h ↦ name ++ b'@' ∷ map lower h ]

-- `existed(a)`
unfoldable pub existed : Existing → Account → Bool
unfolding account_key contains
existed (every b) a = b
existed (keys ks) a = contains ks (account_key a.name a.host)

-- `pwArray[i] ?? pwArray[pwArray.length - 1]`
unfoldable pub password_at : List Text → ℕ → Option Text
password_at passwords i = elim (get_elem? passwords i) [
  | some p ↦ some p
  | none ↦ get_elem? passwords (length passwords - 1)
]

-- the event of an account that could be identified, and did or did not exist
unfoldable pub named_event : Bool → List Text → Bool → ℕ → Account → CredentialEvent
unfolding password_at
named_event aligned passwords was_there i a =
    let who = identity a.name (truthy a.host) in
    let changed = a.is_reset || a.replaces && was_there in
    let kind = if changed then password_changed else new in
    if not a.is_reset && not a.replaces && was_there
    then record {
      type = no_change;
      username = who;
      password = none;
      on_first_login = false;
      password_unmatched = false;
    }
    else if aligned
    then record {
      type = kind;
      username = who;
      password = password_at passwords i;
      on_first_login = a.expires_on_first_login;
      password_unmatched = false;
    }
    else record {
      type = kind;
      username = who;
      password = none;
      on_first_login = false;
      password_unmatched = true;
    }

-- one round of the `forEach`
unfoldable pub event_of : Bool → List Text → Existing → ℕ → Account → CredentialEvent
unfolding named_event existed is_empty
event_of aligned passwords existing i a =
    if is_empty a.name
    then record {
      type = new;
      username = unrecognized (a.statement + 1);
      password = get_elem? passwords i;
      on_first_login = false;
      password_unmatched = false;
    }
    else named_event aligned passwords (existed existing a) i a

unfoldable pub events_from : Bool → List Text → Existing → ℕ → List Account → List CredentialEvent
unfolding event_of
events_from aligned passwords existing i [] = []
events_from aligned passwords existing i (a ∷ accounts) =
    event_of aligned passwords existing i a
    ∷ events_from aligned passwords existing (suc i) accounts

-- `recordCredentialEvents`: this.credentialEvents afterwards
unfoldable pub record_credential_events :
    List CredentialEvent → List Account → List Text → Existing → Bool → List CredentialEvent
unfolding events_from
record_credential_events events accounts passwords existing require_aligned =
    let aligned = not require_aligned || length accounts == length passwords in
    events ++ events_from aligned passwords existing 0 accounts
