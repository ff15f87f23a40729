-- ===== src/RepeatableStatus/Tests.antt =====
-- A file that is applied, one that was edited since, and one that is new.
use db_migrate.RepeatableStatus.{RepeatableFile, Stored, repeatable_status}
use db_migrate.RepeatableStatus.Sorted.{is_applied, file_of, repeatable_status-filter}
use db_migrate.Base.{◌+◌, ◌≡◌, not, none, List, [], ◌∷◌, map, length, filter, Text, codes}

abbrev file : Text → Text → RepeatableFile
file name sum = record { file_name = name; dir = codes "dcl"; checksum = sum; content = [] }

abbrev files : List RepeatableFile
files =
    file (codes "R__a.sql") (codes "1")
    ∷ file (codes "R__b.sql") (codes "2")
    ∷ file (codes "R__c.sql") (codes "3")
    ∷ []

abbrev rows : List Stored
rows =
    record { id = codes "R__a.sql"; sum = codes "1"; stored_content = none }
    ∷ record { id = codes "R__b.sql"; sum = codes "0"; stored_content = none }
    ∷ []

repeatable_status-filter_example :
    (map file_of (repeatable_status files rows).pending
      ≡ filter (λ f. not (is_applied rows f)) files)
    × ((repeatable_status files rows).up_to_date ≡ filter (is_applied rows) files)
    × (length (repeatable_status files rows).pending
          + length (repeatable_status files rows).up_to_date
        ≡ (repeatable_status files rows).total)
repeatable_status-filter_example = repeatable_status-filter files rows
