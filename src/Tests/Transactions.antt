-- ===== src/Tests/Transactions.antt =====
-- The transaction manager over the toy engine.
use sqlx_turso.Base.{Result, ok, err, ℕ, ◌≡◌, refl, true, false, none, some, List, [], ◌∷◌}
use sqlx_turso.Text.{codes}
use sqlx_turso.Executor.Fetch.Behind.{RunsOn, persist-new-RunsOn}
use sqlx_turso.Error.{Error, worker_crashed}
use sqlx_turso.Connection.{
  increment_depth, decrement_depth, mark_rollback_needed, mark_rollback_failed, TursoConnection,
  new, settle, clear_loop, clear_pending_rollback,
}
use sqlx_turso.Transaction.{
  execute_raw, begin_cleared, begin, end_cleared, commit, rollback, start_rollback,
}
use sqlx_turso.Transaction.Invariant.{IsSound}
use sqlx_turso.Transaction.Refinement.Steps.{Implements}
use sqlx_turso.Transaction.Refinement.History.{
  Op, begins, commits, rollbacks, drops, works, run, IsLawful, run-new-Implements,
}
use sqlx_turso.Transaction.Refinement.Failing.{Rests}
use sqlx_turso.Transaction.Refinement.Persist.{
  persist, taken, persist-new-IsSound, persist-new-Rests,
}
use sqlx_turso.Transaction.Refinement.Crashed.{reports, crashed_for_good}
use sqlx_turso.Tests.Toy.{ToyState, toy, toy_sql, no_cache, toy_start, toy_laws, toy_inert}

abbrev put : ℕ → Op ToyState ℕ
put n = works (λ s. record s { value = n }) (λ _. n)

-- Two transactions are dropped with work done in each; the next work sees neither.
abbrev history : List (Op ToyState ℕ)
history =
    begins none
    ∷ put 6
    ∷ begins none
    ∷ put 7
    ∷ drops
    ∷ drops
    ∷ commits
    ∷ begins none
    ∷ put 9
    ∷ commits
    ∷ []

abbrev opened : TursoConnection toy no_cache
opened = new toy no_cache 10 toy_start

history_value : (run toy no_cache toy_sql ℕ history opened).1.raw.value ≡ 9
unfolding new begin commit clear_pending_rollback start_rollback begin_cleared end_cleared
    execute_raw clear_loop settle increment_depth mark_rollback_needed
history_value = refl

put-IsLawful : (n : ℕ) → IsLawful toy no_cache toy_sql ℕ toy_laws (put n)
put-IsLawful n s = (refl, λ j. refl)

run-new-Implements_example :
    Implements toy no_cache toy_sql ℕ toy_laws
      (record { current = 9; marks = [] })
      (run toy no_cache toy_sql ℕ history opened)
run-new-Implements_example =
    run-new-Implements toy no_cache toy_sql ℕ toy_laws history 10 toy_start (
      tt,
      (put-IsLawful 6, (tt, (put-IsLawful 7, (tt, (tt, (tt, (tt, (put-IsLawful 9, (tt, tt))))))))),
    )

-- A transaction is begun, a rollback of it succeeds, and a commit with nothing open changes nothing.
abbrev stubborn : List (Op ToyState ℕ)
stubborn = begins none ∷ put 6 ∷ begins (some (1 ∷ 0 ∷ [])) ∷ rollbacks ∷ commits ∷ []

-- The second transaction is refused, as a custom statement opens none inside of another.
stubborn_outcomes :
    (persist toy no_cache toy_sql ℕ stubborn opened).0 ≡ true ∷ true ∷ false ∷ true ∷ true ∷ []
unfolding new begin commit rollback clear_pending_rollback begin_cleared end_cleared execute_raw
    clear_loop settle increment_depth decrement_depth
stubborn_outcomes = refl

persist-new-Rests_example :
    Rests toy no_cache toy_sql ℕ toy_laws
      (taken toy no_cache toy_sql ℕ stubborn
        (persist toy no_cache toy_sql ℕ stubborn opened).0
        (record { current = 5; marks = [] }))
      (persist toy no_cache toy_sql ℕ stubborn opened).1
persist-new-Rests_example =
    persist-new-Rests toy no_cache toy_sql ℕ toy_laws toy_inert stubborn 10 toy_start
      (tt, (put-IsLawful 6, (refl, (tt, (tt, tt)))))

persist-new-IsSound_example :
    IsSound toy no_cache toy_sql (persist toy no_cache toy_sql ℕ stubborn opened).1
persist-new-IsSound_example = persist-new-IsSound toy no_cache toy_sql ℕ stubborn 10 toy_start

-- The second rollback is owed, and the engine has no mark for it.
abbrev owing : TursoConnection toy no_cache
owing = record {
  raw = toy_start;
  statements = tt;
  transaction_state = record {
    depth = 0;
    pending_rollback_depths = 2 ∷ 1 ∷ [];
    rollback_failed = false;
  };
}

abbrev error_of : Result (Unit {0}) Error → Error
error_of (ok _) = worker_crashed
error_of (err e) = e

abbrev failed_clear : Result (Unit {0}) Error × TursoConnection toy no_cache
failed_clear = clear_pending_rollback toy no_cache toy_sql owing

crashed_for_good_example :
    ((reports toy no_cache toy_sql ℕ (begins none ∷ drops ∷ put 3 ∷ []) failed_clear.1).0
      ≡ err worker_crashed ∷ ok tt ∷ err worker_crashed ∷ [])
    × ((reports toy no_cache toy_sql ℕ (begins none ∷ drops ∷ put 3 ∷ []) failed_clear.1).1.raw
        ≡ failed_clear.1.raw)
unfolding clear_pending_rollback clear_loop settle mark_rollback_failed
crashed_for_good_example =
    crashed_for_good toy no_cache toy_sql ℕ owing failed_clear.1 (error_of failed_clear.0)
      (begins none ∷ drops ∷ put 3 ∷ []) refl

-- A transaction is dropped with work done in it, and then a query runs.
abbrev abandoned : List (Op ToyState ℕ)
abandoned = begins none ∷ put 6 ∷ drops ∷ []

persist-new-RunsOn_example :
    RunsOn toy no_cache toy_sql ℕ toy_laws
      (codes "SELECT 1")
      true
      none
      (persist toy no_cache toy_sql ℕ abandoned opened).1
      (taken toy no_cache toy_sql ℕ abandoned
        (persist toy no_cache toy_sql ℕ abandoned opened).0
        (record { current = 5; marks = [] }))
persist-new-RunsOn_example =
    persist-new-RunsOn toy no_cache toy_sql ℕ toy_laws (codes "SELECT 1") true none toy_inert
      abandoned 10 toy_start (tt, (put-IsLawful 6, (tt, tt)))
