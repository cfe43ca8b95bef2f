-- ===== src/Fiber/States.antt =====
-- The states that fibers go through.
use siempre.Base.{ℕ, ◌≡◌, Bool, false, Option, some, arith}
use siempre.Fiber.{
  Thread, State, set_state, resume, yield, reset, main_func_end, new_fiber, is_term, call, back,
  swap_in, swap_out, yield_to_ready, yield_to_hold, get_this,
}

-- What the code does with fibers on a thread, one call at a time. `returns` is a fiber reaching the
-- end of its entry function.
pub data Step (t : Thread) : Thread → Type 0 where
  resumes : {t' : Thread} (f : ℕ) → resume t f ≡ some t' → Step t t'
  yields : {t' : Thread} (f : ℕ) → yield t f ≡ some t' → Step t t'
  calls : {t' : Thread} (f : ℕ) → call t f ≡ some t' → Step t t'
  backs : {t' : Thread} (f : ℕ) → back t f ≡ some t' → Step t t'
  swaps_in : {t' : Thread} (f : ℕ) → swap_in t f ≡ some t' → Step t t'
  swaps_out : {t' : Thread} (f : ℕ) → swap_out t f ≡ some t' → Step t t'
  resets : {t' : Thread} (f : ℕ) (cb : Option ℕ) → reset t f cb ≡ some t' → Step t t'
  readies : {t' : Thread} (addr : ℕ) → yield_to_ready t addr ≡ some t' → Step t t'
  holds : {t' : Thread} (addr : ℕ) → yield_to_hold t addr ≡ some t' → Step t t'
  creates :
      (addr : ℕ) (cb : Option ℕ) (in_scheduler : Bool) → Step t (new_fiber t addr cb in_scheduler)
  asks : (addr : ℕ) → Step t (get_this t addr).0
  sets_state : (f : ℕ) (st : State) → Step t (set_state t f st)
  returns : {t' : Thread} (f : ℕ) (threw : Bool) → main_func_end t f threw ≡ some t' → Step t t'

pub data Reach (s : Thread) : Thread → Type 0 where
  here : Reach s s
  next : {t u : Thread} → Reach s t → Step t u → Reach s u

-- No fiber is seen as finished.
abbrev pub NoTerm : Thread → Type 0
NoTerm t = (g : ℕ) → is_term (t.fibers g).state ≡ false

-- The step is no `setState(TERM)` from outside.
abbrev pub Fair : {t u : Thread} → Step t u → Type 0
Fair (sets_state f st) = is_term st ≡ false
Fair _ = Unit {0}

abbrev pub AllFair : {s t : Thread} → Reach s t → Type 0
AllFair here = Unit {0}
AllFair (next r st) = AllFair r × Fair st

pub Step-NoTerm : {t u : Thread} → (st : Step t u) → Fair st → NoTerm t → NoTerm u
unfolding resume yield call back swap_in swap_out reset yield_to_ready yield_to_hold new_fiber
    get_this main_func_end
Step-NoTerm (resumes f e) k h = λ g. ground (arith, h g)
Step-NoTerm (yields f e) k h = λ g. ground (arith, h g)
Step-NoTerm (calls f e) k h = λ g. ground (arith, h g)
Step-NoTerm (backs f e) k h = λ g. ground (arith, h g)
Step-NoTerm (swaps_in f e) k h = λ g. ground (arith, h g)
Step-NoTerm (swaps_out f e) k h = λ g. ground (arith, h g)
Step-NoTerm (resets f cb e) k h = λ g. ground (arith, h g)
Step-NoTerm (readies addr e) k h = λ g. ground (arith, h g)
Step-NoTerm (holds addr e) k h = λ g. ground (arith, h g)
Step-NoTerm (creates addr cb s) k h = λ g. ground (arith, h g)
Step-NoTerm (asks addr) k h = λ g. ground (arith, h g)
Step-NoTerm (returns f threw e) k h = λ g. ground (arith, h g)
Step-NoTerm (sets_state f st) k h = λ g. ground (arith, k, h g)

-- From a thread with no finished fiber no history of calls, in which nobody calls `setState(TERM)`,
-- leads to one that has: a fiber whose entry function has ended is left ready, since the yield that it
-- ends with overwrites its state.
pub Reach-NoTerm : {s t : Thread} → (r : Reach s t) → AllFair r → NoTerm s → NoTerm t
Reach-NoTerm here k h = h
Reach-NoTerm (next r st) k h = Step-NoTerm st k.1 (Reach-NoTerm r k.0 h)
