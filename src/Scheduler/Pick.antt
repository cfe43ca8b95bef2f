-- ===== src/Scheduler/Pick.antt =====
-- Which task a round of `run` takes.
use siempre.Base.{
  ℕ, ◌≡◌, inl, inr, refl, Bool, true, false, not, ◌&&◌, ◌||◌, List, [], ◌∷◌, ◌++◌, is_some,
  is_empty, All, arith, ap, Bool-cases,
}
use siempre.Scheduler.{Task, Scan, found, missed, failed, scan, foreign, busy, has_work, behind}

-- A task may be taken by the thread: it is for it or for any thread, and its fiber is not running.
abbrev pub eligible : (ℕ → Bool) → ℕ → Task → Bool
eligible exec tid t = not (foreign tid t) && not (busy exec t)

abbrev pub some_task : (Task → Bool) → List Task → Bool
some_task p [] = false
some_task p (t ∷ ts) = p t || some_task p ts

-- What the search may report on a queue: the first eligible task with what stands before and behind
-- it, or that there is none; and a tickle if a task for another thread was passed over, or tasks are
-- left behind the one that was found.
abbrev pub Reports : (ℕ → Bool) → ℕ → List Task → Scan → Type 0
Reports exec tid ts (found t before after tickle) =
    (ts ≡ before ++ (t ∷ after))
    × (eligible exec tid t ≡ true)
    × All (λ u. eligible exec tid u ≡ false) before
    × (tickle ≡ (some_task (foreign tid) before || not (is_empty after)))
Reports exec tid ts (missed tickle) =
    All (λ u. eligible exec tid u ≡ false) ts × (tickle ≡ some_task (foreign tid) ts)
Reports exec tid ts failed = ⊥

behind-Reports :
    (exec : ℕ → Bool) (tid : ℕ) (t : Task) (ts : List Task) (r : Scan)
    → eligible exec tid t ≡ false
    → Reports exec tid ts r
    → Reports exec tid (t ∷ ts) (behind t (foreign tid t) r)
behind-Reports exec tid t ts (found u before after tickle) e h =
    (ap (λ l. t ∷ l) h.0, h.1, (e, h.2), ground arith)
behind-Reports exec tid t ts (missed tickle) e h = ((e, h.0), ground arith)
behind-Reports exec tid t ts failed e h = h

-- In a queue of tasks that each have a fiber or a callback the search reports the first eligible task,
-- or that there is none, and never fails its assertion.
pub scan-Reports :
    (exec : ℕ → Bool) (tid : ℕ) (ts : List Task)
    → All (λ u. has_work u ≡ true) ts
    → Reports exec tid ts (scan exec tid ts)
unfolding scan
scan-Reports exec tid [] w = (tt, refl)
scan-Reports exec tid (t ∷ ts) w = elim (Bool-cases (foreign tid t)) [
  | inl f ↦ rw f (
      rw f at (
        behind-Reports exec tid t ts (scan exec tid ts) (ground arith)
          (scan-Reports exec tid ts w.1)))
  | inr f ↦ elim (Bool-cases (busy exec t)) [
    | inl b ↦
        rw (f, work, b)
          (rw f at (
            behind-Reports exec tid t ts (scan exec tid ts) (ground arith)
              (scan-Reports exec tid ts w.1)))
    | inr b ↦ rw (f, work, b) (refl, ground arith, tt, ground arith)
  ]
]
  where
    work : (is_some t.fiber || is_some t.cb) ≡ true
    work = ground arith

-- Whenever some task is eligible, the search finds one.
pub scan-progress :
    (exec : ℕ → Bool) (tid : ℕ) (ts : List Task)
    → All (λ u. has_work u ≡ true) ts
    → some_task (eligible exec tid) ts ≡ true
    → (t : Task) × (before after : List Task) × (tickle : Bool) × (scan exec tid ts
        ≡ found t before after tickle)
scan-progress exec tid ts w h = go (scan exec tid ts) refl (scan-Reports exec tid ts w)
  where
    none_there :
        (us : List Task)
        → All (λ u. eligible exec tid u ≡ false) us
        → some_task (eligible exec tid) us ≡ false
    none_there [] k = refl
    none_there (u ∷ us) k = ground (arith, none_there us k.1)

    go :
        (r : Scan)
        → scan exec tid ts ≡ r
        → Reports exec tid ts r
        → (t : Task) × (before after : List Task) × (tickle : Bool) × (scan exec tid ts
            ≡ found t before after tickle)
    go (found t before after tickle) e k = (t, before, after, tickle, e)
    go (missed tickle) e k = absurd (ground (arith, none_there ts k.0))
    go failed e k = absurd k
