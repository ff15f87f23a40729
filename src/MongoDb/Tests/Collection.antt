-- ===== src/MongoDb/Tests/Collection.antt =====
-- A store whose state is the changelog's documents alone, and that it is one.
use db_migrate.MariaDb.{Result, ok, Exec}
use db_migrate.MongoDb.{Doc, Module, Store}
use db_migrate.SanityChecker.{CheckResult}
use db_migrate.SanityChecker.Effect.{KeepsIf}
use db_migrate.MongoDb.Migrate.Recorded.{IsCollection, IsApart, FunctionKeeps}
use db_migrate.MongoDb.Baseline.Marked.{Inserts, IsLookup}
use db_migrate.Base.{
  ℕ, suc, ◌-◌, ◌≡◌, refl, sym, ap, ◌∙◌, inl, inr, Bool, true, false, Option, none, some, List, [],
  ◌∷◌, arith, if◌then◌else◌, Bool-cases, is_some, length, any, find, Text, codes, text_eq,
  text_eq_iff, subst,
}

abbrev pub doc_named : Text → Doc
doc_named file = record { file_name = file; checksum = some (codes "sum"); applied_at = 7 }

abbrev pub recorded : List Doc → Text → Bool
recorded docs file = any (λ (d : Doc). text_eq d.file_name file) docs

abbrev pub find_named : Text → List Doc → Option Doc
find_named file docs = find (λ (d : Doc). text_eq d.file_name file) docs

-- how many documents a file has
abbrev pub documents : List Doc → Text → ℕ
documents [] file = 0
documents (d ∷ docs) file =
    let n = documents docs file in if text_eq d.file_name file then suc n else n

-- the documents without the first of that file
abbrev delete_one : Text → List Doc → List Doc
delete_one file [] = []
delete_one file (d ∷ docs) =
    let rest = delete_one file docs in if text_eq d.file_name file then docs else d ∷ rest

-- the migration `2_b.js` has a check, which fails
abbrev pub checks_of : Text → Option (Exec (List Doc) CheckResult)
checks_of file =
    if text_eq file (codes "2_b.js")
    then some (λ w. (ok (record { success = false; error = some (codes "bad") }), w))
    else none

abbrev pub module_of : Text → Module (List Doc)
module_of file = record {
  up = some (λ t w. (ok tt, w));
  down = some (λ t w. (ok tt, w));
  pre_check = none;
  post_check = checks_of file;
}

abbrev pub collection_store : Store
collection_store = record {
  World = List Doc;
  find_docs = λ w. (ok w, w);
  find_doc = λ file w. (ok (find_named file w), w);
  insert_doc = λ file sum w. (ok tt, doc_named file ∷ w);
  delete_doc = λ file w. (ok tt, delete_one file w);
  set_checksum = λ file sum w. (ok tt, w);
  count_docs = λ coll w. (ok (length w), w);
  delete_docs = λ coll w. (ok tt, []);
  load_module = λ file w. (ok (module_of file), w);
  is_operation_timeout = λ e. false;
  read_dir = ok (codes "2_b.js" ∷ codes "1_a.js" ∷ codes "R__v.js" ∷ []);
  read_file = λ file. ok (codes "export async function up() {}");
  sha256 = λ text. codes "sum";
}

documents-delete_one :
    (file j : Text) (docs : List Doc)
    → documents (delete_one file docs) j
      ≡ (if text_eq file j then documents docs j - 1 else documents docs j)
documents-delete_one file j [] = ground arith
documents-delete_one file j (d ∷ docs) =
    let ih = documents-delete_one file j docs in
    elim (Bool-cases (text_eq d.file_name file)) [
      | inl same ↦
          let named : text_eq d.file_name j ≡ text_eq file j =
            ap (λ x. text_eq x j) ((text_eq_iff d.file_name file).0 same) in
          ground (arith, named, same)
      | inr other ↦ elim (Bool-cases (text_eq d.file_name j)) [
        | inl hit ↦ elim (Bool-cases (text_eq file j)) [
          | inl both ↦
              let mine = (text_eq_iff file j).0 both in
              let its = (text_eq_iff d.file_name j).0 hit in
              let apart : text_eq d.file_name file ≡ true =
                (text_eq_iff d.file_name file).1 (its ∙ sym mine) in
              absurd (cc)
          | inr not_mine ↦ ground (arith, ih)
        ]
        | inr miss ↦ ground (arith, ih)
      ]
    ]

find-recorded :
    (docs : List Doc) (file : Text) → is_some (find_named file docs) ≡ recorded docs file
find-recorded [] file = refl
find-recorded (d ∷ docs) file = ground (arith, find-recorded docs file)

after-eq :
    (id : Text) {r : Result (Unit {0})} {v w' : List Doc}
    → (Path (Result (Unit {0}) × List Doc) (r, v) (ok tt, w'))
    → recorded w' id ≡ recorded v id
after-eq id e = ap (λ (o : Result (Unit {0}) × List Doc). recorded o.1 id) (sym e)

documents-eq :
    (id : Text) {r : Result (Unit {0})} {v w' : List Doc}
    → (Path (Result (Unit {0}) × List Doc) (r, v) (ok tt, w'))
    → documents w' id ≡ documents v id
documents-eq id e = ap (λ (o : Result (Unit {0}) × List Doc). documents o.1 id) (sym e)

pub collection_store-IsCollection : IsCollection collection_store documents
collection_store-IsCollection = record {
  insert = λ file sum w w' j e. documents-eq j e;
  insert_err = λ file sum e w w' j h. absurd (cc);
  delete = λ file w w' j e. documents-eq j e ∙ documents-delete_one file j w;
  delete_err = λ file e w w' j h. absurd (cc);
}

pub collection_store-Inserts : Inserts collection_store recorded
collection_store-Inserts = record {
  insert = λ file sum w w' j e. after-eq j e;
  insert_err = λ file sum e w w' j h. absurd (cc);
}

pub collection_store-IsLookup : IsLookup collection_store recorded
collection_store-IsLookup = record {
  finds = λ file w w' doc e.
      let same : find_named file w ≡ doc = cc in ap is_some (sym same) ∙ find-recorded w file;
  leaves = λ file w j. refl;
}

-- what a module that was loaded is
loaded :
    (file : Text) {w w' : List Doc} {m : Module (List Doc)}
    → (Path (Result (Module (List Doc)) × List Doc) (ok (module_of file), w) (ok m, w'))
    → module_of file ≡ m
loaded file e = cc

pub collection_store-IsApart : IsApart collection_store documents
collection_store-IsApart = record {
  load = λ file w j. refl;
  ups = λ file w w' m j e.
      subst (λ (n : Module (List Doc)). FunctionKeeps collection_store (λ v. documents v j) n.up)
        (loaded file e) (λ t v. refl);
  downs = λ file w w' m j e.
      subst (λ (n : Module (List Doc)). FunctionKeeps collection_store (λ v. documents v j) n.down)
        (loaded file e) (λ t v. refl);
}

checks-KeepsIf : (id file : Text) → KeepsIf (λ w. documents w id) (checks_of file)
checks-KeepsIf id file = go (text_eq file (codes "2_b.js"))
  where
    go :
        (b : Bool)
        → KeepsIf {W = List Doc}
            (λ w. documents w id)
            (if b
              then some (λ w. (ok (record { success = false; error = some (codes "bad") }), w))
              else none)
    go true = λ w. refl
    go false = tt

pub collection_store-checks :
    (id file : Text) (w w' : List Doc) (m : Module (List Doc))
    → collection_store.load_module file w ≡ (ok m, w')
    → KeepsIf (λ w. documents w id) m.pre_check × KeepsIf (λ w. documents w id) m.post_check
collection_store-checks id file w w' m e =
    subst
      (λ (n : Module (List Doc)).
        KeepsIf (λ w. documents w id) n.pre_check × KeepsIf (λ w. documents w id) n.post_check)
      (loaded file e) (tt, checks-KeepsIf id file)
