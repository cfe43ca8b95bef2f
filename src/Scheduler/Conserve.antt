-- ===== src/Scheduler/Conserve.antt =====
-- No task is lost and none is run twice, whatever threads submit, take and end tasks in what order.
use mathlib.Core.List.{Perm, perm_middle}
use mathlib.Core.List.Perm
use siempre.Base.{
  ℕ, ◌+◌, ◌≡◌, ◌<◌, inl, inr, Bool, true, List, [], ◌∷◌, ◌++◌, Option, none, some, if◌then◌else◌,
  All, All-append, arith, Bool-cases, length, append_assoc,
}
use siempre.Scheduler.{
  Task, Source, Scheduler, Scan, found, missed, failed, scan, has_work, take_task, task_of,
  schedule, take_found, end_task, begin_idle, end_idle, new,
}
use siempre.Scheduler.Pick.{Reports, scan-Reports}

-- The scheduler with the history of its tasks, the latest started first.
pub record System : Type 0 where
  pub sched : Scheduler
  pub submitted : List Task
  pub started : List Task
  pub ended : ℕ

abbrev noted : Task → List Task → List Task
noted t ts = if has_work t then ts ++ (t ∷ []) else ts

pub data Step (s : System) : System → Type 0 where
  submits :
      (src : Source) (thr : ℕ)
      → Step s (record s {
        sched = (schedule s.sched src thr).0;
        submitted = noted (task_of src thr) s.submitted;
      })
  takes :
      {s' : Scheduler} {t : Task} {tickle : Bool} (exec : ℕ → Bool) (tid : ℕ)
      → take_task exec tid s.sched ≡ some (s', some t, tickle)
      → Step s (record s { sched = s'; started = t ∷ s.started })
  looks :
      {s' : Scheduler} {tickle : Bool} (exec : ℕ → Bool) (tid : ℕ)
      → take_task exec tid s.sched ≡ some (s', none, tickle)
      → Step s (record s { sched = s' })
  ends :
      s.ended < length s.started
      → Step s (record s { sched = end_task s.sched; ended = s.ended + 1 })
  idles : Step s (record s { sched = begin_idle s.sched })
  wakes : 0 < s.sched.idle → Step s (record s { sched = end_idle s.sched })

pub data Reach (s : System) : System → Type 0 where
  here : Reach s s
  next : {t u : System} → Reach s t → Step t u → Reach s u

pub record Inv (s : System) : Type 0 where
  pub conserved : Perm s.submitted (s.started ++ s.sched.tasks)
  pub counted : s.sched.active + s.ended ≡ length s.started
  pub working : All (λ t. has_work t ≡ true) s.sched.tasks

-- What a successful round of `run` has done.
abbrev Took : Scheduler → Scheduler → Option Task → Type 0
Took s s' none = s' ≡ s
Took s s' (some t) =
    (before : List Task) × (after : List Task) × (s.tasks ≡ before ++ (t ∷ after))
    × (s'.tasks ≡ before ++ after)
    × (s'.active ≡ s.active + 1)

take_found-Took :
    (exec : ℕ → Bool) (tid : ℕ) (s s' : Scheduler) (o : Option Task) (tickle : Bool) (r : Scan)
    → Reports exec tid s.tasks r
    → take_found s r ≡ some (s', o, tickle)
    → Took s s' o
unfolding take_found
take_found-Took exec tid s s' none tickle (found t before after more) h e = cc
take_found-Took exec tid s s' (some u) tickle (found t before after more) h e =
    let same : t ≡ u = ground arith in (before, after, rw (← same) h.0, ground arith, ground arith)
take_found-Took exec tid s s' none tickle (missed more) h e = ground arith
take_found-Took exec tid s s' (some u) tickle (missed more) h e = cc
take_found-Took exec tid s s' o tickle failed h e = absurd h

take_task-Took :
    (exec : ℕ → Bool) (tid : ℕ) (s s' : Scheduler) (o : Option Task) (tickle : Bool)
    → All (λ t. has_work t ≡ true) s.tasks
    → take_task exec tid s ≡ some (s', o, tickle)
    → Took s s' o
unfolding take_task
take_task-Took exec tid s s' o tickle w e =
    take_found-Took exec tid s s' o tickle (scan exec tid s.tasks) (scan-Reports exec tid s.tasks w)
      e

working-split :
    (xs : List Task) (t : Task) (ys : List Task)
    → All (λ u. has_work u ≡ true) (xs ++ (t ∷ ys))
    → All (λ u. has_work u ≡ true) (xs ++ ys)
working-split [] t ys h = h.1
working-split (x ∷ xs) t ys h = (h.0, working-split xs t ys h.1)

submits-Inv :
    (s : System) (src : Source) (thr : ℕ)
    → Inv s
    → Inv (record s {
      sched = (schedule s.sched src thr).0;
      submitted = noted (task_of src thr) s.submitted;
    })
unfolding schedule
submits-Inv s src thr v = elim (Bool-cases (has_work (task_of src thr))) [
  | inl e ↦ rw e (record {
    conserved = rw (← append_assoc) (Perm.append v.conserved (Perm.refl _));
    counted = v.counted;
    working = All-append (λ t. has_work t ≡ true) s.sched.tasks _ v.working (e, tt);
  })
  | inr e ↦ rw e v
]

takes-Inv :
    (s : System) (s' : Scheduler) (t : Task)
    → Inv s
    → Took s.sched s' (some t)
    → Inv (record s { sched = s'; started = t ∷ s.started })
takes-Inv s s' t v (before, after, e, f, g) = record {
  conserved =
      rw (f, ← append_assoc)
        (Perm.trans (rw (e, ← append_assoc) at v.conserved)
          (perm_middle (s.started ++ before) after));
  counted = omega (arith, v.counted, g);
  working = rw f (working-split before t after (rw e at v.working));
}

Step-Inv : {s t : System} → Step s t → Inv s → Inv t
unfolding end_task begin_idle end_idle
Step-Inv {s} (submits src thr) v = submits-Inv s src thr v
Step-Inv {s} (takes {s' = s'} {t = t} {tickle = tickle} exec tid e) v =
    takes-Inv s s' t v (take_task-Took exec tid s.sched s' (some t) tickle v.working e)
Step-Inv {s} (looks {s' = s'} {tickle = tickle} exec tid e) v =
    rw (take_task-Took exec tid s.sched s' none tickle v.working e) v
Step-Inv {s} (ends h) v = record {
  conserved = v.conserved;
  counted = omega (arith, v.counted);
  working = v.working;
}
Step-Inv idles v = record { conserved = v.conserved; counted = v.counted; working = v.working }
Step-Inv (wakes h) v = record { conserved = v.conserved; counted = v.counted; working = v.working }

Reach-Inv : {s t : System} → Reach s t → Inv s → Inv t
Reach-Inv here v = v
Reach-Inv (next r st) v = Step-Inv st (Reach-Inv r v)

abbrev pub fresh : Scheduler → System
fresh s = record { sched = s; submitted = []; started = []; ended = 0 }

-- From a new scheduler, whatever is submitted, taken, ended in what order: the tasks submitted with a
-- fiber or a callback are, as often as they were submitted, those started and those still queued; and
-- the counter of active threads is the number of tasks started and not ended.
pub tasks_conserved :
    {s : Scheduler} {t : System} (threads : ℕ) (use_caller : Bool) (caller : ℕ)
    (has_scheduler : Bool)
    → new threads use_caller caller has_scheduler ≡ some s
    → Reach (fresh s) t
    → Perm t.submitted (t.started ++ t.sched.tasks) × (t.sched.active + t.ended ≡ length t.started)
unfolding new
tasks_conserved {s} {t} threads use_caller caller has_scheduler e r = (v.conserved, v.counted)
  where
    no_tasks : s.tasks ≡ []
    no_tasks = ground arith

    v : Inv t
    v = Reach-Inv r (record {
      conserved = rw no_tasks Perm.nil;
      counted = ground arith;
      working = rw no_tasks tt;
    })
