-- ===== src/Fiber/Tests.antt =====
-- Runs of fibers on one thread, and the theorems at concrete threads.
use siempre.Base.{ℕ, ◌≡◌, ◌≢◌, refl, true, false, none, some, ◌==◌, if◌then◌else◌, arith}
use siempre.Fiber.{ready, exec, term, Fiber, Thread, entry, resume, reset, main_func_end}
use siempre.Fiber.Switch.{resume_lem, main_func_end_lem}
use siempre.Fiber.States.{NoTerm, here, next, resumes, returns, Reach-NoTerm}

abbrev main : Fiber
main = record { state = exec; cb = none; stack = false; in_scheduler = false }

abbrev worker : Fiber
worker = record { state = ready; cb = some 7; stack = true; in_scheduler = true }

-- Fiber 0 dispatches on its thread; the others wait.
abbrev dispatching : Thread
dispatching = record {
  fibers = λ f. if f == 0 then main else worker;
  saved = entry;
  running = entry 0;
  current = some 0;
  thread_fiber = some 0;
  main_fiber = some 0;
}

abbrev working : Thread
working = record dispatching {
  fibers = λ f. if f == 1 then record worker { state = exec } else dispatching.fibers f;
  saved = λ f. if f == 0 then entry 0 else entry f;
  running = entry 1;
  current = some 1;
}

abbrev finished : Thread
finished = record working {
  fibers = λ f.
      if f == 1
      then record worker { state = ready; cb = none }
      else if f == 1
      then record worker { state = term; cb = none }
      else working.fibers f;
  saved = λ f. if f == 1 then record { fiber = 1; done = true } else working.saved f;
  running = entry 0;
  current = some 0;
}

resume_run : resume dispatching 1 ≡ some working
unfolding resume
resume_run = refl

finish_run : main_func_end working 1 false ≡ some finished
unfolding main_func_end
finish_run = refl

resume_lem_example :
    (t' : Thread) × (resume dispatching 1 ≡ some t')
    × (t'.running ≡ entry 1)
    × (t'.saved 0 ≡ entry 0)
    × ((t'.fibers 1).state ≡ exec)
    × (t'.current ≡ some 1)
    × ((g : ℕ) → g ≢ 1 → t'.fibers g ≡ dispatching.fibers g)
    × ((g : ℕ) → g ≢ 0 → t'.saved g ≡ dispatching.saved g)
resume_lem_example = resume_lem dispatching 1 0 refl (omega arith) refl

main_func_end_lem_example :
    ((finished.fibers 1).state ≡ ready)
    × (finished.running ≡ entry 0)
    × (resume finished 1 ≡ none)
    × (u' : Thread) × (reset finished 1 (some 8) ≡ some u')
    × (v : Thread) × (resume u' 1 ≡ some v)
    × (v.running ≡ entry 1)
    × ((v.fibers 1).cb ≡ some 8)
main_func_end_lem_example =
    main_func_end_lem working finished finished 1 0 false (some 8) refl (omega arith) finish_run
      refl refl refl refl

Reach-NoTerm_example : NoTerm finished
Reach-NoTerm_example =
    Reach-NoTerm (next (next here (resumes 1 resume_run)) (returns 1 false finish_run))
      ((tt, tt), tt) (λ g. ground arith)
