-- ===== src/Selection/Tests.antt =====
-- Runs of the selection, and its theorems at concrete inputs.
use db_migrate.Base.{◌≡◌, refl, true, none, some, List, [], ◌∷◌, ◌++◌, Text, codes, includes}
use db_migrate.Selection.{is_repeatable_migration_file, select_pending_migrations}
use db_migrate.Selection.Laws.{Denotes, select-target, select-only}

abbrev three : List Text
three = codes "1-users.sql" ∷ codes "2-user-index.sql" ∷ codes "3-orders.sql" ∷ []

repeatable : is_repeatable_migration_file (codes "dcl/R__01_app.sql") ≡ true
unfolding is_repeatable_migration_file
repeatable = refl

-- an exact name wins over an earlier file that has it as a part
exact_wins :
    (select_pending_migrations
      (codes "a-x.sql" ∷ codes "x.sql" ∷ [])
      (record { target = none; only = some (codes "x") })).selected
    ≡ codes "x.sql" ∷ []
unfolding select_pending_migrations
exact_wins = refl

select-target_example :
    (before : List Text) × (f : Text) × (after : List Text) × (three ≡ before ++ f ∷ after)
    × Denotes (codes "2-user") before f after
    × (select_pending_migrations three (record { target = some (codes "2-user"); only = none })
        ≡ record { selected = before ++ f ∷ []; error = none })
unfolding includes
select-target_example = select-target three b'2' (codes "-user") refl

select-only_example :
    (before : List Text) × (f : Text) × (after : List Text) × (three ≡ before ++ f ∷ after)
    × Denotes (codes "orders") before f after
    × (select_pending_migrations three (record { target = none; only = some (codes "orders") })
        ≡ record { selected = f ∷ []; error = none })
unfolding includes
select-only_example = select-only three b'o' (codes "rders") refl
