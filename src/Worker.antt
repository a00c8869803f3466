-- ===== src/Worker.antt =====
-- worker.py: the progress callback `on_event` of a render.
pub mod Tests
use kenkui_server.Prelude.{
  Text, Option, none, some, Bool, false, arith, text_eq_iff, strip, [], refl, ◌∙◌, sym, ◌≡◌, ◌≢◌,
  ◌⊎◌, if◌then◌else◌, ◌&&◌, ◌||◌, text_eq,
}
use kenkui_server.Prelude.Int.{ℤ, pos, ◌≤ℤ◌, ltb_ℤ}
use kenkui_server.Prelude.Result.{Error, Result, ok, err, ◌>>=◌}
use kenkui_server.Jobs.Models.{JobStatus, Progress, make_progress, Job, required}
use kenkui_server.Jobs.Transitions.{progress_reported, transition_from, transition}
use kenkui_server.Jobs.Transitions.Graph.{Advances, transition-Advances}

-- What the callback reads of an event of the renderer: `hasattr` and `getattr` with a default.
pub record ExecutionEvent : Type 0 where
  pub completed : Option ℤ
  pub total : Option ℤ
  pub stage : Option Text

-- The callback cancels the render, returns, or hands a job to `_update` with its event.
pub data Reaction : Type 0 where
  cancel ignore : Reaction
  publish : Job → Reaction

-- `getattr(event, name, default)`
unfoldable pub attribute : {A : Type 0} → Option A → A → A
attribute none default = default
attribute (some a) default = a

-- The test before the report: it would go back within a stage, or has more done than there is.
unfoldable pub is_outdated : Text → ℤ → ℤ → Progress → Bool
is_outdated stage done total now =
    text_eq stage now.stage && ltb_ℤ done now.completed || ltb_ℤ total done

unfoldable pub report : Text → ℤ → ℤ → Job → Result Reaction
report stage done total job =
    if is_outdated stage done total job.progress
    then ok ignore
    else (transition job (progress_reported stage done total) >>= λ next. ok (publish next))

-- An event without a count is not a report of progress.
unfoldable pub report_event : Option ℤ → ExecutionEvent → Job → Result Reaction
report_event none event job = ok ignore
report_event (some done) event job =
    report (attribute event.stage job.progress.stage) done
      (attribute event.total job.progress.total) job

-- The job is the one that `jobs.get` reads at the event.
unfoldable pub react : JobStatus → ExecutionEvent → Job → Result Reaction
react JobStatus.cancel_requested event job = ok cancel
react _ event job = report_event event.completed event job

unfoldable pub on_event : ExecutionEvent → Job → Result Reaction
on_event event job = react job.status event job

-- What a job that is published has to do with the one that was read.
pub record Reports (event : ExecutionEvent) (job next : Job) : Type 0 where
  pub advances : Advances job next
  pub running : job.status ≡ JobStatus.running
  pub counted :
      (pos 0 ≤ℤ next.progress.completed) × (next.progress.completed ≤ℤ next.progress.total)
  pub named : next.progress.stage ≡ strip (attribute event.stage job.progress.stage)
  pub forward :
      strip (attribute event.stage job.progress.stage) ≡ attribute event.stage job.progress.stage
      → next.progress.stage ≡ job.progress.stage
      → job.progress.completed ≤ℤ next.progress.completed

report_inv :
    (stage : Text) (done total : ℤ) (job next : Job)
    → report stage done total job ≡ ok (publish next)
    → (is_outdated stage done total job.progress ≡ false)
      × (transition job (progress_reported stage done total) ≡ ok next)
unfolding report
report_inv stage done total job next h = grind arith

reported :
    (stage : Text) (done total : ℤ) (job next : Job)
    → transition job (progress_reported stage done total) ≡ ok next
    → (job.status ≡ JobStatus.running)
      × (next.progress.stage ≡ strip stage)
      × (next.progress.completed ≡ done)
      × (next.progress.total ≡ total)
      × (pos 0 ≤ℤ done)
unfolding transition make_progress required
reported stage done total job next h = ground arith

not_back :
    (stage : Text) (done total : ℤ) (now : Progress)
    → is_outdated stage done total now ≡ false
    → (done ≤ℤ total) × (stage ≡ now.stage → now.completed ≤ℤ done)
unfolding is_outdated
not_back stage done total now h =
    let same_stage = (text_eq_iff stage now.stage).1 in
    (ground arith, λ same. let t = same_stage same in ground arith)

report-Reports :
    (event : ExecutionEvent) (done total : ℤ) (job next : Job)
    → report (attribute event.stage job.progress.stage) done total job ≡ ok (publish next)
    → Reports event job next
report-Reports event done total job next h =
    let told = report_inv _ done total job next h in
    let counts = reported _ done total job next told.1 in
    let order = not_back _ done total job.progress told.0 in
    record {
      advances = transition-Advances job next _ told.1;
      running = counts.0;
      named = counts.1;
      counted = (ground arith, ground arith);
      forward = λ clean same.
          let raw : attribute event.stage job.progress.stage ≡ job.progress.stage =
            sym clean ∙ sym counts.1 ∙ same in
          let kept = order.1 raw in ground arith;
    }

report_event-Reports :
    (count : Option ℤ) (event : ExecutionEvent) (job next : Job)
    → report_event count event job ≡ ok (publish next)
    → Reports event job next
unfolding report_event
report_event-Reports none event job next h = ground arith
report_event-Reports (some done) event job next h = report-Reports event done _ job next h

react_inv :
    (status : JobStatus) (event : ExecutionEvent) (job next : Job)
    → react status event job ≡ ok (publish next)
    → report_event event.completed event job ≡ ok (publish next)
unfolding react
react_inv status event job next h = ground arith

-- A report that the callback publishes is for a running job and takes it one version on, with
-- its identity and its spec as they were; its stage is that of the event without the blanks around
-- it, and its counts are in order, 0 ≤ completed ≤ total. If the stage of the event has no blanks
-- around it and the published job is in the stage of the job before, the completed count does not go
-- back.
pub on_event-Reports :
    (event : ExecutionEvent) (job next : Job)
    → on_event event job ≡ ok (publish next)
    → Reports event job next
unfolding on_event
on_event-Reports event job next h =
    report_event-Reports event.completed event job next (react_inv job.status event job next h)

report_settles :
    (stage : Text) (done total : ℤ) (job : Job) (e : Error)
    → job.status ≡ JobStatus.running
    → strip stage ≢ []
    → pos 0 ≤ℤ done
    → report stage done total job ≢ err e
unfolding report transition is_outdated make_progress
report_settles stage done total job e running named counted h = grind arith

report_event_settles :
    (count : Option ℤ) (event : ExecutionEvent) (job : Job) (e : Error)
    → job.status ≡ JobStatus.running
    → strip (attribute event.stage job.progress.stage) ≢ []
    → ((done : ℤ) → count ≡ some done → pos 0 ≤ℤ done)
    → report_event count event job ≢ err e
unfolding report_event
report_event_settles none event job e running named counted h = ground arith
report_event_settles (some done) event job e running named counted h =
    report_settles _ done _ job e running named (counted done refl) h

react_settles :
    (status : JobStatus) (event : ExecutionEvent) (job : Job) (e : Error)
    → (status ≡ JobStatus.running) ⊎ (status ≡ JobStatus.cancel_requested)
    → react status event job ≡ err e
    → (status ≡ JobStatus.running) × (report_event event.completed event job ≡ err e)
unfolding react
react_settles status event job e live h = grind arith

-- For a job that is running or asked to stop, the callback raises no error on an event whose
-- stage is not blank and whose completed count, if it has one, is not negative.
pub on_event_settles :
    (event : ExecutionEvent) (job : Job) (e : Error)
    → (job.status ≡ JobStatus.running) ⊎ (job.status ≡ JobStatus.cancel_requested)
    → strip (attribute event.stage job.progress.stage) ≢ []
    → ((done : ℤ) → event.completed ≡ some done → pos 0 ≤ℤ done)
    → on_event event job ≢ err e
unfolding on_event
on_event_settles event job e live named counted h =
    let raised = react_settles job.status event job e live h in
    report_event_settles event.completed event job e raised.0 named counted raised.1
