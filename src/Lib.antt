-- ===== src/Lib.antt =====
-- db-migrate: the migration engine, modelled from src/core and src/adapters.
--
-- The program reads migration files from a directory, compares them with a changelog in the
-- database, and runs the Up sections (or up functions) of those that are not recorded there, one
-- after the other. The parts that are modelled, and the files that model them:
--
--   Base           tests on numbers, lists and texts that the parts share. A text is the list of its
--                  code units, a JavaScript number that counts or indexes is a native natural number.
--   SqlStatements  src/core/sql-statements.js, splitSqlStatements. Scan holds the variables of the
--                  closure, Words the tests on words, Step one round of the loop by its branches,
--                  Split the loop. `codeStart`, where -1 says that there is none, is an Option. The
--                  fuel of the loop is one more than the length of the script: each round goes forward
--                  by one character at least.
--   SourceScan     src/core/source-scan.js: maskComments, skipString and, in Braces,
--                  findMatchingBrace. The fuel is the length of the text: each round passes over one
--                  character at least. depth is written as two counts, of the braces opened and closed.
--   Credentials    src/core/repeatable-runner.js: accountKey, and recordCredentialEvents from the list
--                  of accounts on, which a migration reports or the text of a file names. What is
--                  printed is left out.
--   Diff           src/core/dcl-plan.js, diffLines and compactDiff. The table is filled from its last
--                  row as in the code, a row being a function of the row below it.
--   SchemaDiff     src/core/schema-diff.js, diffSchemaSnapshots and isDiffEmpty. A Map is a list of its
--                  entries in the order of their first insertions.
--   SanityChecker  src/core/sanity-checker.js, runWithSanityCheck of a new checker, for both ways to
--                  call it: Options has the autoRollback that results. The race with the timer is a
--                  parameter, and a check returns a result or throws.
--   Selection      src/core/base-adapter.js, selectPendingMigrations, isRepeatableMigrationFile.
--   Policy         src/core/base-adapter.js, applyRulePolicy and applyApproval. The findings are
--                  values, and each step returns new ones.
--     Configured   getValidationConfig, getValidationPolicy and evaluateCustomRules. The compilation of
--                  a pattern and the adapter's known and protected codes are parameters.
--   ValidationGate src/core/validation-gate.js, classifyCodes.
--     Check        checkMigrationsToRun, whose call of the adapter's validate is a parameter,
--                  validationOptionsFromCli and allowHintForFailures.
--   Directories    src/core/migration-dirs.js. The disk and Node's path functions are parameters, and
--                  an error is a value that holds what its message names.
--   Fixtures       src/core/fixture-expectations.js, checkFileExpectation and checkSanityExpectation.
--   RepeatableStatus
--                  src/core/repeatable-runner.js, what status computes of the files and of the rows of
--                  the checksum table.
--   RepeatableRun  src/core/repeatable-runner.js, processDelimiterSQL, the reading of the checksum
--                  table, and runMariaDB. The connection, the validator, the resolution of generated
--                  passwords and the lookup of existing accounts are parameters.
--   MariaDb        src/adapters/mariadb-adapter.js. An async function is an action Exec over the state
--                  of the server, an exception the `err` of its result.
--     LockGuard    executeWithLockGuard and _executeGuarded: a migration's statements, each sent again
--                  after a lock wait timeout. `attempt` recurses on the attempts that are left.
--     Files        extractSection, stripSanityBlocks, hasSection, parseFileAnnotations and
--                  resolveStatementTimeout, the regular expressions as functions on texts. Where a
--                  scan goes on behind what it removed, its fuel is the length of the text.
--     Server       the calls of the connection and the file system as a record, and what is relied on
--                  of them as records of laws. The server, the driver and the disk are no part of the
--                  repository: every definition takes them as a parameter.
--     Status       status, with ensureChangelogTable, getMigrationFiles and, of
--                  src/core/sql-columns.js, addColumnIfMissing.
--     Up, Run      up: the loop over the files, and the status and the selection before it.
--     Down         rollbackPlan and down.
--     Baseline     baseline.
--     Checks       extractSanitySection and executeSanityCheck, the SQL checks of a migration.
--     Checked      upWithSanityCheck, repairChecksum and resetChangelog.
--     Keeps        how an observation of the server's state passes through an action.
--     Tests        a server whose state is the rows of the changelog, which has the laws.
--   MongoDb        src/adapters/mongodb-adapter.js, over the same actions. The driver's calls, the
--                  files, the hash and the dynamic import of a migration are one record of parameters,
--                  and a migration's function is given the time limit that its handles carry.
--     Annotations  parseFileAnnotations and resolveOperationTimeout.
--     Status       getMigrationFiles, status and repairChecksum.
--     Migrate      _runMigrationFunction, _applyOne, _rollbackOne, up and the loop of down.
--     Plan         rollbackPlan and down with a count. The time of a document is a number.
--     Baseline     baseline and resetChangelog.
--     Checked      upWithSanityCheck over the pending files.
--     Tests        a store whose state is the documents of the changelog, which has the laws.
--
-- up calls status, then the selection, and for each file the section, the timeout and the lock guard,
-- which calls the splitter; down does the same with the Down section, after it took the row away.
--
-- Not modelled: the rules of validation, which are tables of regular expressions over SQL and
-- JavaScript, and validate itself; connecting and the runtime checks before a run, which are queries of
-- the server with formatting of their rows; generated passwords; templates of new files; reports and
-- the command line, which format and print; delays and console output. Of a message only what it is
-- about is kept.
pub mod Base
pub mod Credentials
pub mod Diff
pub mod Selection
pub mod SourceScan
pub mod SqlStatements
pub mod MariaDb
pub mod SchemaDiff
pub mod SanityChecker
pub mod Policy
pub mod ValidationGate
pub mod RepeatableStatus
pub mod MongoDb
pub mod Directories
pub mod Fixtures
pub mod RepeatableRun
