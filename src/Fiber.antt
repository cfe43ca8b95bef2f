-- ===== src/Fiber.antt =====
-- Fibers: src/Fiber/Fiber.cc and include/Fiber/Fiber.h, on one thread.
-- A context (`ucontext_t`) holds a flow of control. `swap a b` saves the running flow in the context
-- of `a` and continues the flow held by the context of `b`, whoever that is. The fields `current`,
-- `thread_fiber` and `main_fiber` are the thread-local `t_fiber` and `t_thread_fiber` of Fiber.cc and
-- the `t_fiber` of Scheduler.cc. `none` is the end of the process: a failed SIEM_ASSERT, or a null
-- pointer read. The addresses of new objects are arguments.
pub mod Switch
pub mod Entered
pub mod States
mod Tests
use siempre.Base.{
  ℕ, ◌≡◌, Bool, true, false, not, ◌&&◌, ◌||◌, Option, none, some, ◌==◌, if◌then◌else◌, is_some,
}

pub data State : Type 0 where
  ready exec term : State

abbrev pub is_ready : State → Bool
is_ready ready = true
is_ready _ = false

abbrev pub is_exec : State → Bool
is_exec exec = true
is_exec _ = false

abbrev pub is_term : State → Bool
is_term term = true
is_term _ = false

-- `stack` says whether the fiber has a stack of its own: the main fiber of a thread has none.
pub record Fiber : Type 0 where
  pub state : State
  pub cb : Option ℕ
  pub stack : Bool
  pub in_scheduler : Bool

-- The flow of control of a fiber; `done` once its entry function has left its last callback.
pub record Flow : Type 0 where
  pub fiber : ℕ
  pub done : Bool

pub record Thread : Type 0 where
  pub fibers : ℕ → Fiber
  pub saved : ℕ → Flow
  pub running : Flow
  pub current : Option ℕ
  pub thread_fiber : Option ℕ
  pub main_fiber : Option ℕ

abbrev pub entry : ℕ → Flow
entry f = record { fiber = f; done = false }

abbrev pub put {ℓ} : {A : Type ℓ} → (ℕ → A) → ℕ → A → ℕ → A
put m f x g = if g == f then x else m g

abbrev pub set_state : Thread → ℕ → State → Thread
set_state t f s = record t { fibers = put t.fibers f (record (t.fibers f) { state = s }) }

abbrev pub assert : Bool → Option Thread → Option Thread
assert true k = k
assert false k = none

-- A flow that is done goes on behind its last switch, into `SIEM_ASSERT_STR(false, "never reach")`.
pub swap : Thread → ℕ → ℕ → Option Thread
swap t a b =
    let saved' = put t.saved a t.running in
    let target = saved' b in
    if target.done then none else some (record t { saved = saved'; running = target })

-- `&fiber->m_context` of a pointer that may be null.
abbrev pub with_fiber : Option ℕ → (ℕ → Option Thread) → Option Thread
with_fiber none k = none
with_fiber (some f) k = k f

-- `Fiber(void)`: the main fiber of a thread, which is running.
pub main_fiber_of : Thread → ℕ → Thread
main_fiber_of t addr = record t {
  fibers =
      put t.fibers addr (record { state = exec; cb = none; stack = false; in_scheduler = false });
  current = some addr;
}

-- `Fiber(cb, stack_size, is_runinscheduler)`
pub new_fiber : Thread → ℕ → Option ℕ → Bool → Thread
new_fiber t addr cb in_scheduler = record t {
  fibers =
      put t.fibers addr
        (record { state = ready; cb = cb; stack = true; in_scheduler = in_scheduler });
  saved = put t.saved addr (entry addr);
}

-- `getThis`: the current fiber, made if there is none.
pub get_this : Thread → ℕ → Thread × ℕ
unfolding main_fiber_of
get_this t addr = elim t.current [
  | some f ↦ (t, f)
  | none ↦ (record (main_fiber_of t addr) { thread_fiber = some addr }, addr)
]

-- Where a fiber's control comes from and goes back to.
abbrev pub home : Thread → ℕ → Option ℕ
home t f = if (t.fibers f).in_scheduler then t.main_fiber else t.thread_fiber

pub resume : Thread → ℕ → Option Thread
unfolding swap
resume t f =
    assert (not (is_term (t.fibers f).state) || not (is_exec (t.fibers f).state))
      (with_fiber (home t f) (λ h. swap (set_state (record t { current = some f }) f exec) h f))

pub yield : Thread → ℕ → Option Thread
unfolding swap
yield t f = assert (is_exec (t.fibers f).state || is_term (t.fibers f).state) (
    with_fiber (home t f)
      (λ h. swap (set_state (record t { current = t.thread_fiber }) f ready) f h))

pub call : Thread → ℕ → Option Thread
unfolding swap
call t f =
    with_fiber t.thread_fiber (λ h. swap (set_state (record t { current = some f }) f exec) h f)

pub back : Thread → ℕ → Option Thread
unfolding swap
back t f = with_fiber t.thread_fiber (λ h. swap (record t { current = t.thread_fiber }) f h)

pub swap_in : Thread → ℕ → Option Thread
unfolding swap
swap_in t f =
    assert (not (is_exec (t.fibers f).state))
      (with_fiber t.main_fiber (λ h. swap (set_state (record t { current = some f }) f exec) h f))

pub swap_out : Thread → ℕ → Option Thread
unfolding swap
swap_out t f = with_fiber t.main_fiber (λ h. swap (record t { current = t.main_fiber }) f h)

pub reset : Thread → ℕ → Option ℕ → Option Thread
reset t f cb = assert (t.fibers f).stack (
    assert (is_term (t.fibers f).state || is_ready (t.fibers f).state) (
      some (record t {
        fibers = put t.fibers f (record (t.fibers f) { cb = cb; state = ready });
        saved = put t.saved f (entry f);
      })))

pub yield_to_ready : Thread → ℕ → Option Thread
unfolding get_this swap_out
yield_to_ready t addr =
    let (t', f) = get_this t addr in
    assert (is_exec (t'.fibers f).state) (swap_out (set_state t' f ready) f)

pub yield_to_hold : Thread → ℕ → Option Thread
unfolding get_this swap_out
yield_to_hold t addr =
    let (t', f) = get_this t addr in assert (is_exec (t'.fibers f).state) (swap_out t' f)

-- The end of `MainFunc` in the current fiber, once its callback has returned or thrown.
pub main_func_end : Thread → ℕ → Bool → Option Thread
unfolding yield
main_func_end t f threw = yield left f
  where
    body : Fiber
    body = record (t.fibers f) { cb = if threw then (t.fibers f).cb else none; state = term }

    left : Thread
    left = record t { fibers = put t.fibers f body; running = record t.running { done = true } }
