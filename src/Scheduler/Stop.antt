-- ===== src/Scheduler/Stop.antt =====
-- Whether the scheduler ever comes to an end, and whether its loops do.
use siempre.Base.{
  ℕ, ◌≡◌, zero, suc, refl, Bool, false, ◌||◌, List, ◌∷◌, Option, none, some, arith, ◌∙◌,
}
use siempre.Scheduler.{
  Task, Source, Scheduler, Scan, found, missed, failed, scan, take_task, take_found, schedule,
  end_task, begin_idle, end_idle, new, start, stop, is_stopping, schedule_range, schedule_no_lock,
  left_in, any_thread, switch_to,
}

-- Every call that changes a scheduler.
pub data Step (s : Scheduler) : Scheduler → Type 0 where
  schedules : (src : Source) (thr : ℕ) → Step s (schedule s src thr).0
  takes :
      {s' : Scheduler} {o : Option Task} {tickle : Bool} (exec : ℕ → Bool) (tid : ℕ)
      → take_task exec tid s ≡ some (s', o, tickle)
      → Step s s'
  ends : Step s (end_task s)
  idles : Step s (begin_idle s)
  wakes : Step s (end_idle s)
  starts : {s' : Scheduler} (ids : List ℕ) → start s ids ≡ some s' → Step s s'
  stops : {s' : Scheduler} {n : ℕ} (own : Bool) → stop s own ≡ some (s', n) → Step s s'
  switches :
      {s' : Scheduler} (own : Bool) (thread tid fiber : ℕ)
      → switch_to s own thread tid fiber ≡ some s'
      → Step s s'

pub data Reach (s : Scheduler) : Scheduler → Type 0 where
  here : Reach s s
  next : {t u : Scheduler} → Reach s t → Step t u → Reach s u

take_found-auto_stop :
    (s s' : Scheduler) (o : Option Task) (tickle : Bool) (r : Scan)
    → take_found s r ≡ some (s', o, tickle)
    → s'.auto_stop ≡ s.auto_stop
unfolding take_found
take_found-auto_stop s s' o tickle (found t before after more) e = ground arith
take_found-auto_stop s s' o tickle (missed more) e = ground arith
take_found-auto_stop s s' o tickle failed e = cc

Step-auto_stop : {s t : Scheduler} → Step s t → t.auto_stop ≡ s.auto_stop
unfolding schedule end_task begin_idle end_idle start stop switch_to take_task
Step-auto_stop (schedules src thr) = ground arith
Step-auto_stop {s} (takes {s' = s'} {o = o} {tickle = k} exec tid e) =
    take_found-auto_stop s s' o k (scan exec tid s.tasks) e
Step-auto_stop ends = refl
Step-auto_stop idles = refl
Step-auto_stop wakes = refl
Step-auto_stop (starts ids e) = ground arith
Step-auto_stop (stops own e) = ground arith
Step-auto_stop (switches own thread tid fiber e) = ground arith

Reach-auto_stop : {s t : Scheduler} → Reach s t → t.auto_stop ≡ s.auto_stop
Reach-auto_stop here = refl
Reach-auto_stop (next r st) = Step-auto_stop st ∙ Reach-auto_stop r

-- Whatever is called on a new scheduler, `stop` included, `stopping()` answers false in every state it
-- reaches, since no call sets `m_autoStop`.
pub never_stopping :
    {s t : Scheduler} (threads : ℕ) (use_caller : Bool) (caller : ℕ) (has_scheduler : Bool)
    → new threads use_caller caller has_scheduler ≡ some s
    → Reach s t
    → is_stopping t ≡ false
unfolding new is_stopping
never_stopping {s} {t} threads use_caller caller has_scheduler e r =
    ground (arith, Reach-auto_stop r)

-- The loop of `schedule(begin, end)` over a range that is not empty never ends: for no fuel is there
-- a result.
pub schedule_range_diverges :
    (fuel : ℕ) (s : Scheduler) (x : Source) (rest : List Source) (need : Bool)
    → schedule_range fuel s (x ∷ rest) need ≡ none
unfolding schedule_range
schedule_range_diverges zero s x rest need = refl
schedule_range_diverges (suc fuel) s x rest need =
    schedule_range_diverges fuel (schedule_no_lock s x any_thread).0 (left_in x) rest
      ((schedule_no_lock s x any_thread).1 || need)
