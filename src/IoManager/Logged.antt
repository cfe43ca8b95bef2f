-- ===== src/IoManager/Logged.antt =====
-- Triggers behind an epoll_ctl call: the state that cancelAll and idle leave.
use siempre.Base.{
  ℕ, ◌≡◌, refl, sym, Bool, true, false, List, [], ◌∷◌, ◌++◌, some, if◌then◌else◌, ◌==◌, get_elem?,
  Bool-cases, inl, inr, ==_iff, append-nil,
}
use siempre.IoManager.Context.{Event, FdContext, without}
use siempre.IoManager.{Ctl, Manager}
use siempre.IoManager.Keeps.{effect, Counted, IsValid, Changes}
use siempre.IoManager.Calls.{log_agrees}
use siempre.IoManager.Triggers.{both_handed, FiresAll}

-- Valid but for the log: what `fire_both` starts from once the epoll_ctl call is made.
pub relogged : (m : Manager) (log : List Ctl) → Counted m → Counted (record m { epoll = log })
relogged m log v = record {
  consistent = v.consistent;
  numbered = v.numbered;
  counted = v.counted;
  small = v.small;
  roomy = v.roomy;
}

-- The state after events of `fd` were triggered, if `done`.
pub record Triggers (m m' : Manager) (fd : ℕ) (c : FdContext) (ev : Event) (done : Bool)
    : Type 0 where
  pub valid : IsValid m'
  pub changes : Changes m m' fd (if done then without c.events ev else c.events)
  pub schedules : m'.scheduled ≡ m.scheduled ++ (if done then both_handed c ev else [])

pub unchanged-Triggers :
    (m : Manager) (fd : ℕ) (c : FdContext) (ev : Event)
    → IsValid m
    → get_elem? m.contexts fd ≡ some c
    → Triggers m m fd c ev false
unchanged-Triggers m fd c ev v q = record {
  valid = v;
  changes = λ g. elim (Bool-cases (fd == g)) [
    | inl k ↦ rw (k, ← (==_iff fd g).0 k, q) refl
    | inr k ↦ rw k refl
  ];
  schedules = sym (append-nil m.scheduled);
}

pub logged-Triggers :
    (m m' : Manager) (fd : ℕ) (c c' : FdContext) (ev : Event) (k : Ctl)
    → IsValid m
    → k.fd ≡ fd
    → effect k ≡ without c.events ev
    → FiresAll (record m { epoll = k ∷ m.epoll }) m' fd c c' ev
    → Triggers m m' fd c ev true
logged-Triggers m m' fd c c' ev k v e f h = record {
  valid = record {
    counts = h.counts;
    agrees =
        rw h.same_epoll
          (log_agrees m k fd (without c.events ev) m'.contexts v.agrees e f h.changes);
  };
  changes = h.changes;
  schedules = h.hands;
}
