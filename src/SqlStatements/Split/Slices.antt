-- ===== src/SqlStatements/Split/Slices.antt =====
-- sql-statements.js: the statements of a split are parts of the script, in its order.
pub mod Parts
use native.Mathlib.Decide.{dec_lt}
use mathlib.Core.List.{reverse-append, reverse-reverse}
use db_migrate.SqlStatements.{push_from, Scan, go, start, slice, add_statement, push, reset}
use db_migrate.SqlStatements.Step.{step}
use db_migrate.SqlStatements.Step.Moves.{Moves, step-Moves, step_semicolon-go}
use db_migrate.SqlStatements.Split.Total.{turn, ends, fails, continues}
use db_migrate.SqlStatements.Split.{End, done, null, no_fuel, loop, finish, split_sql_statements}
use db_migrate.SqlStatements.Split.Slices.Parts.{
  Spells, Spells-take, trim-part, Spells-add, take-all, length-le_of_none, slice-nil,
}
use db_migrate.Base.{
  ℕ, zero, suc, ◌+◌, ◌-◌, ◌≤◌, ◌<◌, ◌≡◌, refl, sym, ap, ◌∙◌, inl, inr, true, false, not, Option,
  none, some, List, arith, Option-cases, or_default, length, get_elem?, take, Text, trim_start,
  trim, subst,
}

-- The script up to where the current statement starts holds the statements found so far.
abbrev Inv : Text → ℕ → Scan → Type 0
Inv sql i s =
    Spells s.statements (take (or_default s.code_start i) sql) × (or_default s.code_start i ≤ i)

-- A later state with the same statements, and a start of the current one that is no earlier.
Inv-later :
    (sql : Text) (i j : ℕ) (s s' : Scan)
    → Inv sql i s
    → s'.statements ≡ s.statements
    → or_default s.code_start i ≤ or_default s'.code_start j
    → or_default s'.code_start j ≤ j
    → Inv sql j s'
Inv-later sql i j s s' (sp, le) same lo hi = (rw same (Spells-take s.statements _ _ sql lo sp), hi)

start-le : (o : Option ℕ) (i j : ℕ) → i ≤ j → or_default o i ≤ or_default o j
start-le none i j h = h
start-le (some k) i j h = omega arith

start-bound : (o : Option ℕ) (i j : ℕ) → i ≤ j → or_default o i ≤ i → or_default o j ≤ j
start-bound none i j h k = omega arith
start-bound (some m) i j h k = omega arith

Inv-Moves : (sql : Text) (i j : ℕ) (s s' : Scan) → Inv sql i s → Moves i s (go j s') → Inv sql j s'
Inv-Moves sql i j s s' (sp, le) (lt, same, inr (was, now)) =
    Inv-later sql i j s s' (sp, le) same (rw (was, now) (omega arith)) (rw now (omega arith))
Inv-Moves sql i j s s' (sp, le) (lt, same, inl kept) =
    Inv-later sql i j s s' (sp, le) same (rw kept (start-le s.code_start i j (omega arith)))
      (rw kept (start-bound s.code_start i j (omega arith) le))

push-none : (sql : Text) (i : ℕ) (s : Scan) → s.code_start ≡ none → push sql i s ≡ s
unfolding push
push-none sql i s e = ap (λ o. push_from o sql i s) e

push-some :
    (sql : Text) (i : ℕ) (s : Scan) {k : ℕ}
    → s.code_start ≡ some k
    → push sql i s ≡ add_statement (trim (slice sql k i)) s
unfolding push
push-some sql i s e = ap (λ o. push_from o sql i s) e

Spells-push :
    (sql : Text) (i : ℕ) (s : Scan) → Inv sql i s → Spells (push sql i s).statements (take i sql)
Spells-push sql i s (sp, le) = elim (Option-cases s.code_start) [
  | inl e ↦
      rw (push-none sql i s e) (Spells-take s.statements (or_default s.code_start i) i sql le sp)
  | inr (k, e) ↦
      let (g, r, t) = trim-part (slice sql k i) in
      let from : or_default s.code_start i ≡ k = ap (λ o. or_default o i) e in
      rw (push-some sql i s e) (
        Spells-add sql (trim (slice sql k i)) k i s (subst (λ b. b ≤ i) from le)
          (subst (λ b. Spells s.statements (take b sql)) from sp) g r t)
]

Inv-go : (sql : Text) (j k : ℕ) (s t : Scan) → go j s ≡ go k t → Inv sql k t → Inv sql j s
Inv-go sql j k s t e inv =
    let p : k ≡ j = cc in
    let q : t ≡ s = cc in subst (λ (u : Scan). Inv sql j u) q (subst (λ n. Inv sql n t) p inv)

Inv-reset : (sql : Text) (i : ℕ) (s : Scan) → Inv sql i s → Inv sql (i + 1) (reset (push sql i s))
unfolding reset start
Inv-reset sql i s inv =
    (Spells-take _ i (i + 1) sql (omega arith) (Spells-push sql i s inv), omega arith)

Inv-inside :
    (sql : Text) (i : ℕ) (s : Scan)
    → Inv sql i s
    → Inv sql (i + 1) (record s { at_body = true; after_end = false; in_handler = false })
Inv-inside sql i s inv =
    let t = record s { at_body = true; after_end = false; in_handler = false } in
    Inv-later sql i (i + 1) s t inv refl (start-le s.code_start i (i + 1) (omega arith))
      (start-bound s.code_start i (i + 1) (omega arith) inv.1)

Inv-step :
    (sql : Text) (i ch j : ℕ) (s s' : Scan)
    → get_elem? sql i ≡ some ch
    → step sql i ch s ≡ go j s'
    → Inv sql i s
    → Inv sql j s'
Inv-step sql i ch j s s' h e inv = elim (step-Moves sql i ch s h) [
  | inl m ↦ Inv-Moves sql i j s s' inv (subst (Moves i s) e m)
  | inr semi ↦ elim (step_semicolon-go sql i s) [
    | inl g ↦ Inv-go sql j (i + 1) s' _ (sym e ∙ semi ∙ g) (Inv-inside sql i s inv)
    | inr g ↦ Inv-go sql j (i + 1) s' _ (sym e ∙ semi ∙ g) (Inv-reset sql i s inv)
  ]
]

-- What the loop ends with.
record IsEnd (sql : Text) (s : Scan) : Type 0 where
  index : ℕ
  inv : Inv sql index s
  beyond : length sql ≤ index

stop :
    (sql : Text) (i : ℕ) (s t : Scan) → Inv sql i s → get_elem? sql i ≡ none → s ≡ t → IsEnd sql t
stop sql i s t inv out e = record {
  index = i;
  inv = subst (Inv sql i) e inv;
  beyond = length-le_of_none sql i out;
}

loop-IsEnd :
    (fuel : ℕ) (sql : Text) (i : ℕ) (s t : Scan)
    → Inv sql i s
    → loop fuel sql i s ≡ done t
    → IsEnd sql t
loop-IsEnd zero sql i s t inv e = elim (Option-cases (get_elem? sql i)) [
  | inl out ↦ stop sql i s t inv out (unfold loop in ground arith)
  | inr (ch, at_i) ↦ absurd (unfold loop in ground arith)
]
loop-IsEnd (suc fuel) sql i s t inv e = elim (turn fuel sql i s) [
  | ends p out ↦ stop sql i s t inv out (cc)
  | fails p ↦ absurd (cc)
  | continues ch j s' at_i g p ↦
      loop-IsEnd fuel sql j s' t (Inv-step sql i ch j s s' at_i g inv) (sym p ∙ e)
]

finish-some :
    (sql : Text) (e : End) (ts : List Text)
    → finish sql e ≡ some ts
    → (s : Scan) × (e ≡ done s) × (ts ≡ (push sql (length sql) s).statements)
unfolding finish
finish-some sql (done s) ts h = (s, refl, ground arith)
finish-some sql null ts h = cc
finish-some sql no_fuel ts h = cc

-- A statement that would start behind the end is empty, and is not pushed.
Spells-past :
    (sql : Text) (k : ℕ) (s : Scan)
    → length sql < k
    → Spells s.statements (take k sql)
    → Spells (add_statement (trim (slice sql k (length sql))) s).statements sql
Spells-past sql k s h sp =
    rw (slice-nil sql k (length sql) (omega arith))
      (unfold trim trim_start in subst (Spells s.statements) (take-all k sql (omega arith)) sp)

Spells-final :
    (sql : Text) (s : Scan) → IsEnd sql s → Spells (push sql (length sql) s).statements sql
Spells-final sql s r = elim (Option-cases s.code_start) [
  | inl e ↦ rw (push-none sql n s e) (
      subst (Spells s.statements) (take-all r.index sql r.beyond)
        (subst (λ o. Spells s.statements (take (or_default o r.index) sql)) e r.inv.0))
  | inr (k, e) ↦
      let sp : Spells s.statements (take k sql) =
        subst (λ o. Spells s.statements (take (or_default o r.index) sql)) e r.inv.0 in
      rw (push-some sql n s e) (elim (dec_lt n k) [
        | yes past ↦ Spells-past sql k s past sp
        | no inside ↦
            let (g, q, t) = trim-part (slice sql k n) in
            subst (Spells (add_statement (trim (slice sql k n)) s).statements)
              (take-all n sql (omega arith))
              (Spells-add sql (trim (slice sql k n)) k n s (omega arith) sp g q t)
      ])
]
  where
    n : ℕ
    n = length sql

-- Of a script that splits, the statements are non-empty parts of its text, in its order and without
-- an overlap: the script is the statements with some text before, between and behind them.
pub split-Spells :
    (sql : Text) (statements : List Text)
    → split_sql_statements sql ≡ some statements
    → Spells statements sql
unfolding split_sql_statements start
split-Spells sql ts h =
    let (s, e, same) = finish-some sql (loop (length sql) sql 0 start) ts h in
    let r = loop-IsEnd (length sql) sql 0 start s (tt, omega arith) e in
    rw same (Spells-final sql s r)
