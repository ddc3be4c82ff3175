-- ===== src/Engine/Recovery/Convergence.antt =====
-- internal/orchestration/recovery.go and exhausted.go: what the two convergences guarantee.
use ants.Prelude.{
  ◌≡◌, sym, ap, subst, ◌∙◌, arith, Bool, true, false, Option, none, some, [], ◌∷◌, Text, bytes,
  Int64, text_eq, text_eq_refl, if◌then◌else◌, Bool-cases, inl, inr,
}
use ants.Domain.Errors.{Result, ok, err, conflictf}
use ants.Domain.Audit.{Metadata, Value}
use ants.Domain.Event.{Event}
use ants.Domain.RunStatus.{RunStatus}
use ants.Domain.RunStatus as RS
use ants.Domain.Task.{FailureInfo}
use ants.Domain.ThreadStatus.{ThreadStatus}
use ants.Domain.StatusText.{run_status_text}
use ants.Domain.Run.{Run, is_terminal}
use ants.Domain.Thread.{Thread}
use ants.Store.Assoc.{lookup, put}
use ants.Store.Assoc.Laws.{lookup-put}
use ants.Store.Database.{Database}
use ants.Store.Runs as Runs
use ants.Store.Runs.{run_rows}
use ants.Store.Rows.{find_own}
use ants.Store.Rows.Versions.{find_own-ok}
use ants.Store.Transactor.{Action, bind-ok, return}
use ants.Engine.{read_store, lift}
use ants.Engine.Recovery.{
  Moment, interrupted_failure_code, exhausted_failure_code, detail_of, failed_successor,
  exhausted_successor, route_failed_thread, end_as_failed, converge_run_to_failed,
  recover_interrupted, converge_pending_exhausted, converge_exhausted,
}
use ants.Engine.Recovery.Ended.{ending, ending-ok, first_of_pair}

-- The tenant's run of an identifier has ended.
abbrev pub IsOver : (tenant_id run_id : Text) → Database → Type 0
IsOver tenant_id run_id db =
    (r : Run) × (lookup run_id db.runs ≡ some r)
    × (r.tenant_id ≡ tenant_id)
    × (is_terminal r.status ≡ true)

-- A row stands under its own identifier.
abbrev pub IsNamed : (run_id : Text) → Database → Type 0
IsNamed run_id db = (r : Run) → lookup run_id db.runs ≡ some r → r.id ≡ run_id

if_same :
    (id : Text) (r : Run) (other : Option Run) → (if text_eq id id then some r else other) ≡ some r
if_same id r other = ground (arith, text_eq_refl id)

-- The branch that a test has taken.
else_of :
    (b : Bool) (x y : Action (Unit {0})) (db : Database) {r : Database × Result (Unit {0})}
    → b ≡ false
    → (if b then x else y) db ≡ r
    → y db ≡ r
else_of true x y db e h = cc e
else_of false x y db e h = h

then_of :
    (b : Bool) (x y : Action (Unit {0})) (db : Database) {r : Database × Result (Unit {0})}
    → b ≡ true
    → (if b then x else y) db ≡ r
    → x db ≡ r
then_of true x y db e h = h
then_of false x y db e h = cc e

-- What reading a run has found.
read-ok :
    (tenant_id run_id : Text) (db db₁ : Database) {run : Run}
    → read_store (Runs.get tenant_id run_id) db ≡ (db₁, ok run)
    → (db₁ ≡ db) × (lookup run_id db.runs ≡ some run) × (run.tenant_id ≡ tenant_id)
unfolding Runs.get
read-ok tenant_id run_id db db₁ h =
    let found : find_own run_rows tenant_id run_id db.runs ≡ ok _ =
      ap (λ (r : Database × Result Run). r.1) h in
    let (at, own) = find_own-ok run_rows tenant_id run_id db.runs found in
    (sym (ap first_of_pair h), at, own)

module _ (marshal : Event → Option Text) (carried : Option Text) where
  ended-IsOver :
      (run : Run) (next : RunStatus) (failure : Option FailureInfo) (payload : Metadata)
      (successor : Thread → Option ThreadStatus) (reason : Text) (m : Moment) (db db' : Database)
      (tenant_id run_id : Text)
      → ending marshal carried run next failure payload successor reason m db ≡ (db', ok tt)
      → run.id ≡ run_id
      → run.tenant_id ≡ tenant_id
      → IsOver tenant_id run_id db'
  ended-IsOver run next failure payload successor reason m db db' tenant_id run_id h id tenant =
      let (stored, status, failed, own, terminal, wrote) =
        ending-ok marshal carried run next failure payload successor reason m db db' h in
      (
        stored,
        ap (lookup run_id) wrote
            ∙ ap (λ k. lookup run_id (put k stored db.runs)) id
            ∙ lookup-put run_id run_id stored db.runs
            ∙ if_same run_id stored (lookup run_id db.runs),
        own ∙ tenant,
        ap is_terminal status ∙ terminal,
      )

  converge-IsOver :
      (run : Run) (code detail : Text) (extra : Metadata) (m : Moment) (db db' : Database)
      (tenant_id run_id : Text)
      → lookup run_id db.runs ≡ some run
      → run.id ≡ run_id
      → run.tenant_id ≡ tenant_id
      → converge_run_to_failed marshal carried run code detail extra m db ≡ (db', ok tt)
      → IsOver tenant_id run_id db'
  unfolding converge_run_to_failed end_as_failed route_failed_thread
  converge-IsOver run code detail extra m db db' tenant_id run_id at id tenant h =
      elim (Bool-cases (is_terminal run.status)) [
        | inl e ↦
            let same : db ≡ db' = ground (arith, h, e) in
            subst (IsOver tenant_id run_id) same (run, at, tenant, e)
        | inr e ↦
            ended-IsOver run RunStatus.failed
              (some (record { code = code; message = detail; transient = false }))
              ((bytes "to", Value.text (run_status_text RunStatus.failed))
                ∷ (bytes "code", Value.text code)
                ∷ (bytes "detail", Value.text detail)
                ∷ extra)
              (λ (t : Thread). failed_successor t.status) code m db db' tenant_id run_id
              (else_of (is_terminal run.status) (return tt) _ db e h) id tenant
      ]

  -- A run that has ended is left alone.
  converge-over :
      (run : Run) (code detail : Text) (extra : Metadata) (m : Moment) (db db' : Database)
      (run_id : Text)
      → lookup run_id db.runs ≡ some run
      → (r : Run) → lookup run_id db.runs ≡ some r
      → is_terminal r.status ≡ true
      → converge_run_to_failed marshal carried run code detail extra m db ≡ (db', ok tt)
      → db' ≡ db
  unfolding converge_run_to_failed
  converge-over run code detail extra m db db' run_id at r at_r over h =
      let same : r ≡ run = cc (at, at_r) in
      sym (
        ap first_of_pair (
          then_of (is_terminal run.status) _ _ db
            (ap (λ (x : Run). is_terminal x.status) (sym same) ∙ over) h))

  -- What follows the reading of the run.
  abbrev recover : (cause : Option Text) → Moment → Run → Action (Unit {0})
  recover cause m run =
      if RS.eq run.status RunStatus.pending
      then lift (err (conflictf "run_not_interrupted"))
      else converge_run_to_failed marshal carried run interrupted_failure_code
          (detail_of (bytes "execution lease lost before completion") cause) [] m

  -- A recovery that succeeds leaves the run ended, whatever the run was in the middle of and
  -- whichever thread it has; it may have ended before, and then nothing changes. Rows stand under
  -- their own identifiers.
  pub recover_interrupted-IsOver :
      (tenant_id run_id : Text) (cause : Option Text) (m : Moment) (db db' : Database)
      → IsNamed run_id db
      → recover_interrupted marshal carried tenant_id run_id cause m db ≡ (db', ok tt)
      → IsOver tenant_id run_id db' × (IsOver tenant_id run_id db → db' ≡ db)
  unfolding recover_interrupted
  recover_interrupted-IsOver tenant_id run_id cause m db db' named h =
      let (run, db₁, h₁, k₁) =
        bind-ok (read_store (Runs.get tenant_id run_id)) (recover cause m) db db' h in
      let (same, at, own) = read-ok tenant_id run_id db db₁ h₁ in
      let k : recover cause m run db ≡ (db', ok tt) = ap (recover cause m run) (sym same) ∙ k₁ in
      elim (Bool-cases (RS.eq run.status RunStatus.pending)) [
        | inl e ↦ cc (then_of (RS.eq run.status RunStatus.pending) _ _ db e k)
        | inr e ↦
            let ran = else_of (RS.eq run.status RunStatus.pending) _ _ db e k in
            (
              converge-IsOver run interrupted_failure_code _ [] m db db' tenant_id run_id at
                  (named run at) own ran,
              λ over.
                  converge-over run interrupted_failure_code _ [] m db db' run_id at over.0 over.1
                    over.3 ran,
            )
      ]

  abbrev detail_exhausted : Option Text → Text
  detail_exhausted cause =
      detail_of (bytes "dispatch attempts exhausted without reaching a terminal state") cause

  abbrev exhaust : (attempts : Int64) → (cause : Option Text) → Moment → Run → Action (Unit {0})
  exhaust attempts cause m run =
      if RS.eq run.status RunStatus.pending
      then converge_pending_exhausted marshal carried run (detail_exhausted cause) attempts m
      else converge_run_to_failed marshal carried run exhausted_failure_code
          (detail_exhausted cause) ((bytes "attempts", Value.number attempts) ∷ []) m

  -- The convergence of a run whose dispatch budget is spent leaves the run's row in a terminal state
  -- where it succeeds, also that of a run that never started. Rows stand under their own identifiers.
  pub converge_exhausted-IsOver :
      (tenant_id run_id : Text) (attempts : Int64) (cause : Option Text) (m : Moment)
      (db db' : Database)
      → IsNamed run_id db
      → converge_exhausted marshal carried tenant_id run_id attempts cause m db ≡ (db', ok tt)
      → IsOver tenant_id run_id db'
  unfolding converge_exhausted converge_pending_exhausted
  converge_exhausted-IsOver tenant_id run_id attempts cause m db db' named h =
      let (run, db₁, h₁, k₁) =
        bind-ok (read_store (Runs.get tenant_id run_id)) (exhaust attempts cause m) db db' h in
      let (same, at, own) = read-ok tenant_id run_id db db₁ h₁ in
      let k : exhaust attempts cause m run db ≡ (db', ok tt) =
        ap (exhaust attempts cause m run) (sym same) ∙ k₁ in
      elim (Bool-cases (RS.eq run.status RunStatus.pending)) [
        | inl e ↦
            ended-IsOver run RunStatus.cancelled none
              ((bytes "to", Value.text (run_status_text RunStatus.cancelled))
                ∷ (bytes "code", Value.text exhausted_failure_code)
                ∷ (bytes "detail", Value.text (detail_exhausted cause))
                ∷ (bytes "attempts", Value.number attempts)
                ∷ [])
              (λ (t : Thread). exhausted_successor t.status) exhausted_failure_code m db db'
              tenant_id run_id (then_of (RS.eq run.status RunStatus.pending) _ _ db e k)
              (named run at) own
        | inr e ↦
            converge-IsOver run exhausted_failure_code (detail_exhausted cause)
              ((bytes "attempts", Value.number attempts) ∷ []) m db db' tenant_id run_id at
              (named run at) own (else_of (RS.eq run.status RunStatus.pending) _ _ db e k)
      ]
