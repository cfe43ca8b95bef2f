-- ===== src/Fiber/Switch.antt =====
-- Control goes to a fiber and comes back.
use siempre.Base.{ℕ, ◌≡◌, ◌≢◌, refl, Bool, true, false, Option, none, some, arith}
use siempre.Fiber.{ready, exec, Thread, entry, put, resume, yield, home, reset, main_func_end}

-- `resume` never looks at the state of the fiber: it fails only where there is no dispatching fiber or
-- the fiber has run to its end. Control goes to the flow saved for `f`, and the running flow is kept
-- for the dispatching fiber.
pub resume_lem :
    (t : Thread) (f h : ℕ)
    → home t f ≡ some h
    → h ≢ f
    → (t.saved f).done ≡ false
    → (t' : Thread) × (resume t f ≡ some t')
      × (t'.running ≡ t.saved f)
      × (t'.saved h ≡ t.running)
      × ((t'.fibers f).state ≡ exec)
      × (t'.current ≡ some f)
      × ((g : ℕ) → g ≢ f → t'.fibers g ≡ t.fibers g)
      × ((g : ℕ) → g ≢ h → t'.saved g ≡ t.saved g)
unfolding resume
resume_lem t f h e n d = (
  record t {
    fibers = put t.fibers f (record (t.fibers f) { state = exec });
    saved = put t.saved h t.running;
    running = t.saved f;
    current = some f;
  },
  ground arith,
  refl,
  ground arith,
  ground arith,
  refl,
  λ g k. ground arith,
  λ g k. ground arith,
)

-- A fiber that was resumed, has run up to `u` and yields there: control is again at the flow that
-- resumed it, whatever ran in between, provided the context kept for that flow was left alone.
pub resume-yield :
    (t t' u : Thread) (f h : ℕ)
    → home t f ≡ some h
    → resume t f ≡ some t'
    → home u f ≡ some h
    → u.saved h ≡ t'.saved h
    → h ≢ f
    → (u.fibers f).state ≡ exec
    → t.running.done ≡ false
    → (t'' : Thread) × (yield u f ≡ some t'')
      × (t''.running ≡ t.running)
      × (t''.saved f ≡ u.running)
      × ((t''.fibers f).state ≡ ready)
      × (t''.current ≡ u.thread_fiber)
      × ((g : ℕ) → g ≢ f → t''.fibers g ≡ u.fibers g)
      × ((g : ℕ) → g ≢ f → t''.saved g ≡ u.saved g)
unfolding resume yield
resume-yield t t' u f h e r e' k n s d = (
  record u {
    fibers = put u.fibers f (record (u.fibers f) { state = ready });
    saved = put u.saved f u.running;
    running = t.running;
    current = u.thread_fiber;
  },
  ground arith,
  refl,
  ground arith,
  ground arith,
  refl,
  λ g k. ground arith,
  λ g k. ground arith,
)

-- A fiber that has reached the end of its entry function gives control back and is left ready; but
-- from then on, as long as its context is not set up anew, a resume of it ends the process. Once
-- `reset` has set it up anew, a resume enters the new callback.
pub main_func_end_lem :
    (t t' u : Thread) (f h : ℕ) (threw : Bool) (cb : Option ℕ)
    → home t f ≡ some h
    → h ≢ f
    → main_func_end t f threw ≡ some t'
    → home u f ≡ some h
    → u.saved f ≡ t'.saved f
    → u.fibers f ≡ t'.fibers f
    → (t.fibers f).stack ≡ true
    → ((t'.fibers f).state ≡ ready)
      × (t'.running ≡ t.saved h)
      × (resume u f ≡ none)
      × (u' : Thread) × (reset u f cb ≡ some u')
      × (v : Thread) × (resume u' f ≡ some v)
      × (v.running ≡ entry f)
      × ((v.fibers f).cb ≡ cb)
unfolding main_func_end resume reset
main_func_end_lem t t' u f h threw cb e n r e' k l s =
    let u' : Thread = record u {
      fibers = put u.fibers f (record (u.fibers f) { cb = cb; state = ready });
      saved = put u.saved f (entry f);
    } in
    (
      ground arith,
      ground arith,
      ground arith,
      u',
      ground arith,
      record u' {
        fibers = put u'.fibers f (record (u'.fibers f) { state = exec });
        saved = put u'.saved h u.running;
        running = entry f;
        current = some f;
      },
      ground arith,
      refl,
      ground arith,
    )
