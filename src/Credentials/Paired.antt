-- ===== src/Credentials/Paired.antt =====
-- repeatable-runner.js, recordCredentialEvents: to whom a password is handed out.
use db_migrate.MariaDb.Files.Annotations.{is_empty}
use db_migrate.Credentials.{
  Account, Existing, no_change, identity, CredentialEvent, existed, password_at, named_event,
  event_of, events_from, record_credential_events,
}
use db_migrate.Base.{
  ℕ, zero, suc, ◌+◌, ◌<◌, ◌≡◌, refl, sym, ap, ◌∙◌, ◌≢◌, ◌↔◌, Bool, true, false, not, ◌&&◌, ◌||◌,
  none, some, List, [], ◌∷◌, ◌++◌, arith, ◌==◌, ==_iff, length, get_elem?, All, Text, subst, truthy,
}

-- Did the run set a password for the account?
abbrev pub is_set : Existing → Account → Bool
is_set existing a = a.is_reset || a.replaces || not (existed existing a)

-- what an event tells of the account at its place
pub record Belongs (passwords : List Text) (existing : Existing) (even : Bool) (i : ℕ) (a : Account)
    (e : CredentialEvent) : Type 0 where
  pub username : e.username ≡ identity a.name (truthy a.host)
  pub handed :
      (p : Text)
      → e.password ≡ some p
      → (even ≡ true) × (get_elem? passwords i ≡ some p) × (is_set existing a ≡ true)
  pub complete : even ≡ true → is_set existing a ≡ true → e.password ≡ get_elem? passwords i
  pub marked : e.password_unmatched ≡ (not even && is_set existing a)
  pub kept : (e.type ≡ no_change) ↔ (is_set existing a ≡ false)

in_range : (passwords : List Text) (i : ℕ) → i < length passwords → get_elem? passwords i ≢ none
in_range [] i h = absurd (omega arith)
in_range (p ∷ passwords) zero h = cc
in_range (p ∷ passwords) (suc i) h = in_range passwords i (omega arith)

password_at-in_range :
    (passwords : List Text) (i : ℕ)
    → i < length passwords
    → password_at passwords i ≡ get_elem? passwords i
unfolding password_at
password_at-in_range passwords i h = ground (arith, in_range passwords i h)

named-Belongs :
    (passwords : List Text) (existing : Existing) (even : Bool) (i : ℕ) (a : Account)
    → (even ≡ true → password_at passwords i ≡ get_elem? passwords i)
    → Belongs passwords existing even i a (named_event even passwords (existed existing a) i a)
unfolding named_event
named-Belongs passwords existing even i a h = record {
  username = ground arith;
  handed = λ p e. ground (arith, h, e);
  complete = λ x y. ground (arith, h, x, y);
  marked = ground arith;
  kept = ground arith;
}

abbrev pub IsNamed : Account → Type 0
IsNamed a = is_empty a.name ≡ false

length-events_from :
    (aligned : Bool) (passwords : List Text) (existing : Existing) (i : ℕ) (accounts : List Account)
    → length (events_from aligned passwords existing i accounts) ≡ length accounts
unfolding events_from
length-events_from aligned passwords existing i [] = refl
length-events_from aligned passwords existing i (a ∷ accounts) =
    ap suc (length-events_from aligned passwords existing (suc i) accounts)

event_of-named :
    (aligned : Bool) (passwords : List Text) (existing : Existing) (i : ℕ) (a : Account)
    → IsNamed a
    → event_of aligned passwords existing i a
      ≡ named_event aligned passwords (existed existing a) i a
unfolding event_of
event_of-named aligned passwords existing i a h = rw h refl

-- Behind the first `i` accounts, the `j`th event is that of the `j`th account.
events_from-at :
    (aligned : Bool) (passwords : List Text) (existing : Existing) (i : ℕ) (accounts : List Account)
    (j : ℕ) (e : CredentialEvent)
    → All IsNamed accounts
    → get_elem? (events_from aligned passwords existing i accounts) j ≡ some e
    → (a : Account) × (get_elem? accounts j ≡ some a)
      × (j < length accounts)
      × (e ≡ named_event aligned passwords (existed existing a) (i + j) a)
unfolding events_from
events_from-at aligned passwords existing i [] j e named h = absurd (cc)
events_from-at aligned passwords existing i (a ∷ accounts) zero e (named, rest) h =
    let this : some e ≡ some (event_of aligned passwords existing i a) = sym h in
    let same : e ≡ event_of aligned passwords existing i a = cc in
    (
      a,
      refl,
      omega arith,
      same
          ∙ event_of-named aligned passwords existing i a named
          ∙ ap (λ n. named_event aligned passwords (existed existing a) n a) (omega arith),
    )
events_from-at aligned passwords existing i (a ∷ accounts) (suc j) e (named, rest) h =
    let (b, at_j, lt, same) =
      events_from-at aligned passwords existing (suc i) accounts j e rest h in
    (
      b,
      at_j,
      omega arith,
      same ∙ ap (λ n. named_event aligned passwords (existed existing b) n b) (omega arith),
    )

-- What a recording that insists on as many passwords as accounts appends, if each account has a
-- name: an event for each account, in their order, with its name. A password is in an event only if
-- there are as many passwords as accounts, it is the one at the account's place, and the run set
-- the account's password, which it did not if the account existed and was not reset or replaced;
-- conversely each password that was set is handed out if the numbers agree, and if they do not
-- agree, the event says that it was not matched.
pub record_credential_events-Belongs :
    (events : List CredentialEvent) (accounts : List Account) (passwords : List Text)
    (existing : Existing)
    → All IsNamed accounts
    → (recorded : List CredentialEvent) × (record_credential_events events accounts passwords
          existing true
        ≡ events ++ recorded)
      × (length recorded ≡ length accounts)
      × ((j : ℕ) (e : CredentialEvent)
          → get_elem? recorded j ≡ some e
          → (a : Account) × (get_elem? accounts j ≡ some a)
            × Belongs passwords existing (length accounts == length passwords) j a e)
unfolding record_credential_events
record_credential_events-Belongs events accounts passwords existing named =
    let even = length accounts == length passwords in
    (
      events_from even passwords existing 0 accounts,
      refl,
      length-events_from even passwords existing 0 accounts,
      λ j e h.
          let (a, at_j, lt, same) = events_from-at even passwords existing 0 accounts j e named h in
          let same' : e ≡ named_event even passwords (existed existing a) j a =
            same ∙ ap (λ n. named_event even passwords (existed existing a) n a) (omega arith) in
          (
            a,
            at_j,
            subst (Belongs passwords existing even j a) (sym same') (
                named-Belongs passwords existing even j a λ agree.
                  password_at-in_range passwords j
                    (omega (arith, lt, (==_iff (length accounts) (length passwords)).0 agree))),
          ),
    )
