-- ===== src/MariaDb/Run/Complete.antt =====
-- mariadb-adapter.js, up and the status after it.
use db_migrate.Selection.{SelectOptions, select_pending_migrations}
use db_migrate.MariaDb.Actions.{ended, returned, threw}
use db_migrate.MariaDb.{Error, ok, err}
use db_migrate.MariaDb.Server.{Server, Config, IsTable, IsSelect, IsApart, IsSetup}
use db_migrate.MariaDb.Status.{Status, read_status, migration_files}
use db_migrate.MariaDb.Status.Shows.{status-shows}
use db_migrate.MariaDb.Up.{of_run, UpResult, file_id, up_files, UpResult}
use db_migrate.MariaDb.Up.Recorded.{up_files-UpRan}
use db_migrate.MariaDb.Run.{run_pending, run_selected, up}
use db_migrate.Base.{
  ◌≡◌, refl, sym, ap, ◌∙◌, inl, inr, Bool, true, false, not, ◌||◌, none, List, [], ◌∷◌, ◌++◌,
  append-nil, arith, filter, any, All, Text, text_eq, text_eq_refl, All-map,
}

-- `up()`, without --target and --only
abbrev pub everything : SelectOptions
everything = record { target = none; only = none }

-- Each element passes a test or is related to one that does not.
module _ {A : Type 0} (related : A → A → Bool) (h : (x : A) → related x x ≡ true)
    (q : A → Bool) where
  abbrev covers : List A → A → Bool
  covers xs x = any (λ y. related y x) (filter (λ y. not (q y)) xs) || q x

  covers-cons : (z : A) (xs : List A) (x : A) → covers xs x ≡ true → covers (z ∷ xs) x ≡ true
  covers-cons z xs x e = ground arith

  covers-all : (xs : List A) → All (λ x. covers xs x ≡ true) xs
  covers-all [] = tt
  covers-all (x ∷ xs) = (ground (arith, h x), All-map (covers-cons x xs) xs (covers-all xs))

  filter-covered :
      (p : A → Bool) (xs ys : List A)
      → ((x : A) → p x ≡ covers xs x)
      → All (λ x. covers xs x ≡ true) ys
      → filter (λ x. not (p x)) ys ≡ []
  filter-covered p xs [] same c = refl
  filter-covered p xs (y ∷ ys) same c = ground (arith, same y, c.0, filter-covered p xs ys same c.1)

module _ (server : Server) (config : Config) (recorded : server.World → Text → Bool)
    (table : IsTable server recorded) (select : IsSelect server recorded)
    (apart : IsApart server recorded) (setup : IsSetup server recorded) where
  open server use {World}

  up-eq :
      (st : Status) (w v : World)
      → read_status server config w ≡ (ok st, v)
      → up server config everything w ≡ up_files server config st.pending v
  unfolding up run_pending run_selected select_pending_migrations
  up-eq st w v e = rw e refl

  pending-none :
      (w v u w' : World) (st st' : Status)
      → config.repeatable ≡ false
      → config.read_only ≡ false
      → read_status server config w ≡ (ok st, v)
      → ((id : Text)
          → recorded u id ≡ (any (λ f. text_eq (file_id f) id) st.pending || recorded v id))
      → read_status server config u ≡ (ok st', w')
      → st'.pending ≡ []
  pending-none w v u w' st st' once writes first records second =
      let (names, listed, p, _, left) =
        status-shows server config recorded table select apart setup st w v once writes first in
      let (names', listed', p', _, _) =
        status-shows server config recorded table select apart setup st' u w' once writes second in
      let same : names' ≡ names = cc in
      let files = migration_files names in
      let related : Text → Text → Bool = λ g f. text_eq (file_id g) (file_id f) in
      let q : Text → Bool = λ f. recorded w (file_id f) in
      let reflexive : (f : Text) → related f f ≡ true = λ f. text_eq_refl (file_id f) in
      p'
      ∙ ap (λ l. filter (λ f. not (recorded u (file_id f))) (migration_files l)) same
      ∙ filter-covered related reflexive q (λ f. recorded u (file_id f)) files files
          (λ f.
            records (file_id f)
            ∙ ap (λ l. any (λ g. related g f) l || recorded v (file_id f)) p
            ∙ ap (λ b. any (λ g. related g f) (filter (λ g. not (q g)) files) || b)
                (left (file_id f)))
          (covers-all related reflexive q files)

  all-applied :
      (st : Status) (v : World)
      → (up_files server config st.pending v).0.errors ≡ []
      → (up_files server config st.pending v).0.applied ≡ st.pending
  all-applied st v clean =
      let r = up_files-UpRan server config recorded table apart st.pending v in
      elim r.ended [
        | inl (none_left, _) ↦ sym (
            r.cut
            ∙ ap (λ l. (up_files server config st.pending v).0.applied ++ l) none_left
            ∙ append-nil _)
        | inr (f, rest, e, _, failed) ↦ absurd (cc)
      ]

  up-err :
      (e : Error) (w v : World)
      → read_status server config w ≡ (err e, v)
      → (up server config everything w).0.errors ≡ of_run e ∷ []
  unfolding up run_pending
  up-err e w v h = rw h refl

  -- After a run of all pending migrations that reported no error, a status that is computed from
  -- what the run left lists no file as pending; under the assumption that the server answers as the
  -- documentation of its statements says, and that the migrations leave the changelog table alone.
  pub up_complete :
      (w w' : World) (st' : Status)
      → config.repeatable ≡ false
      → config.read_only ≡ false
      → (up server config everything w).0.errors ≡ []
      → read_status server config (up server config everything w).1 ≡ (ok st', w')
      → st'.pending ≡ []
  up_complete w w' st' once writes clean second = elim (ended (read_status server config w)) [
    | returned st v first ↦
        let eq = up-eq st w v first in
        let out = up_files server config st.pending v in
        let applied =
          all-applied st v (ap (λ (o : UpResult × World). o.0.errors) (sym eq) ∙ clean) in
        pending-none w v out.1 w' st st' once writes first
          (λ id.
            (up_files-UpRan server config recorded table apart st.pending v).records id
            ∙ ap (λ l. any (λ f. text_eq (file_id f) id) l || recorded v id) applied)
          (ap (λ (o : UpResult × World). read_status server config o.1) (sym eq) ∙ second)
    | threw e v failed ↦ absurd (let h = up-err e w v failed in cc)
  ]
