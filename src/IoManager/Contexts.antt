-- ===== src/IoManager/Contexts.antt =====
-- The vector of contexts: what it counts and what stands at a place.
use siempre.Base.{
  ℕ, zero, suc, ◌+◌, ◌-◌, ◌*◌, ◌/◌, ◌≡◌, ◌<◌, ◌≤◌, refl, List, [], ◌∷◌, ◌++◌, Option, none, some,
  if◌then◌else◌, ◌==◌, length, take, set, get_elem?, All, All-append, arith, ap, ltb, Bool-cases,
  tests, inl, inr,
}
use siempre.IoManager.Context.{Event, FdContext, no_event, IsConsistent, count}
use siempre.IoManager.Context.Keeps.{new_context-IsConsistent}
use siempre.IoManager.{new_contexts, room_for}

-- The number of events registered in all contexts.
abbrev pub total : List FdContext → ℕ
total [] = 0
total (c ∷ cs) = count c.events + total cs

-- Each context stands at the place of its descriptor.
abbrev pub IsNumbered : ℕ → List FdContext → Type 0
IsNumbered n [] = Unit {0}
IsNumbered n (c ∷ cs) = (c.fd ≡ n) × IsNumbered (suc n) cs

abbrev pub events_of : Option FdContext → Event
events_of none = no_event
events_of (some c) = c.events

abbrev pub events_at : List FdContext → ℕ → Event
events_at cs fd = events_of (get_elem? cs fd)

pub All-get_elem? :
    (P : FdContext → Type 0) (cs : List FdContext) (fd : ℕ) (c : FdContext)
    → All P cs
    → get_elem? cs fd ≡ some c
    → P c
All-get_elem? P [] fd c h e = cc
All-get_elem? P (x ∷ cs) zero c h e = let q : x ≡ c = ground arith in rw (← q) h.0
All-get_elem? P (x ∷ cs) (suc fd) c h e = All-get_elem? P cs fd c h.1 e

pub All-set :
    (P : FdContext → Type 0) (cs : List FdContext) (fd : ℕ) (c : FdContext)
    → All P cs
    → P c
    → All P (set cs fd c)
All-set P [] fd c h k = tt
All-set P (x ∷ cs) zero c h k = (k, h.1)
All-set P (x ∷ cs) (suc fd) c h k = (h.0, All-set P cs fd c h.1 k)

pub IsNumbered-get_elem? :
    (n : ℕ) (cs : List FdContext) (fd : ℕ) (c : FdContext)
    → IsNumbered n cs
    → get_elem? cs fd ≡ some c
    → c.fd ≡ n + fd
IsNumbered-get_elem? n [] fd c h e = cc
IsNumbered-get_elem? n (x ∷ cs) zero c h e = ground arith
IsNumbered-get_elem? n (x ∷ cs) (suc fd) c h e =
    omega (arith, IsNumbered-get_elem? (suc n) cs fd c h.1 e)

pub IsNumbered-set :
    (n : ℕ) (cs : List FdContext) (fd : ℕ) (c c' : FdContext)
    → IsNumbered n cs
    → get_elem? cs fd ≡ some c
    → c'.fd ≡ c.fd
    → IsNumbered n (set cs fd c')
IsNumbered-set n [] fd c c' h e k = tt
IsNumbered-set n (x ∷ cs) zero c c' h e k = (ground arith, h.1)
IsNumbered-set n (x ∷ cs) (suc fd) c c' h e k = (h.0, IsNumbered-set (suc n) cs fd c c' h.1 e k)

pub total-set :
    (cs : List FdContext) (fd : ℕ) (c c' : FdContext)
    → get_elem? cs fd ≡ some c
    → total (set cs fd c') + count c.events ≡ total cs + count c'.events
total-set [] fd c c' e = cc
total-set (x ∷ cs) zero c c' e = let q : x ≡ c = ground arith in rw q (omega arith)
total-set (x ∷ cs) (suc fd) c c' e = omega (arith, total-set cs fd c c' e)

pub events_at-set :
    (cs : List FdContext) (fd g : ℕ) (c c' : FdContext)
    → get_elem? cs fd ≡ some c
    → events_at (set cs fd c') g ≡ (if fd == g then c'.events else events_at cs g)
events_at-set [] fd g c c' e = cc
events_at-set (x ∷ cs) zero zero c c' e = refl
events_at-set (x ∷ cs) zero (suc g) c c' e = ground arith
events_at-set (x ∷ cs) (suc fd) zero c c' e = ground arith
events_at-set (x ∷ cs) (suc fd) (suc g) c c' e = ground (arith, events_at-set cs fd g c c' e)

pub get_elem?-set :
    (cs : List FdContext) (fd : ℕ) (c c' : FdContext)
    → get_elem? cs fd ≡ some c
    → get_elem? (set cs fd c') fd ≡ some c'
get_elem?-set [] fd c c' e = cc
get_elem?-set (x ∷ cs) zero c c' e = refl
get_elem?-set (x ∷ cs) (suc fd) c c' e = get_elem?-set cs fd c c' e

-- The new contexts behind the old ones: nothing that is registered changes.
pub All-new : (fd n : ℕ) → All IsConsistent (new_contexts fd n)
unfolding new_contexts
All-new fd zero = tt
All-new fd (suc n) = (new_context-IsConsistent fd, All-new (fd + 1) n)

pub total-new : (cs : List FdContext) (fd n : ℕ) → total (cs ++ new_contexts fd n) ≡ total cs
unfolding new_contexts
total-new [] fd zero = refl
total-new [] fd (suc n) = omega (arith, total-new [] (fd + 1) n)
total-new (x ∷ cs) fd n = ap (λ k. count x.events + k) (total-new cs fd n)

pub IsNumbered-new :
    (m : ℕ) (cs : List FdContext) (fd n : ℕ)
    → IsNumbered m cs
    → fd ≡ m + length cs
    → IsNumbered m (cs ++ new_contexts fd n)
unfolding new_contexts
IsNumbered-new m [] fd zero h e = tt
IsNumbered-new m [] fd (suc n) h e =
    (omega arith, IsNumbered-new (suc m) [] (fd + 1) n tt (omega arith))
IsNumbered-new m (x ∷ cs) fd n h e = (h.0, IsNumbered-new (suc m) cs fd n h.1 (omega arith))

pub events_at-new :
    (cs : List FdContext) (fd n g : ℕ) → events_at (cs ++ new_contexts fd n) g ≡ events_at cs g
unfolding new_contexts
events_at-new [] fd zero g = refl
events_at-new [] fd (suc n) zero = refl
events_at-new [] fd (suc n) (suc g) = events_at-new [] (fd + 1) n g
events_at-new (x ∷ cs) fd n zero = refl
events_at-new (x ∷ cs) fd n (suc g) = events_at-new cs fd n g

pub length-new : (cs : List FdContext) (fd n : ℕ) → length (cs ++ new_contexts fd n) ≡ length cs + n
unfolding new_contexts
length-new [] fd zero = omega arith
length-new [] fd (suc n) = omega (arith, length-new [] (fd + 1) n)
length-new (x ∷ cs) fd n = omega (arith, length-new cs fd n)

take_all : (cs : List FdContext) (n : ℕ) → length cs ≤ n → take n cs ≡ cs
take_all [] zero h = refl
take_all [] (suc n) h = refl
take_all (x ∷ cs) zero h = absurd (omega arith)
take_all (x ∷ cs) (suc n) h = ap (λ l. x ∷ l) (take_all cs n (omega arith))

pub get_elem?-in :
    (cs : List FdContext) (i : ℕ) → i < length cs → (c : FdContext) × (get_elem? cs i ≡ some c)
get_elem?-in [] i h = absurd (omega arith)
get_elem?-in (x ∷ cs) zero h = (x, refl)
get_elem?-in (x ∷ cs) (suc i) h = get_elem?-in cs i (omega arith)

-- Growing the vector for a descriptor makes a place for it and keeps everything registered, once the
-- vector has two places.
pub record Grown (cs cs' : List FdContext) (fd : ℕ) : Type 0 where
  pub longer : length cs ≤ length cs'
  pub covers : fd < length cs'
  pub same_total : total cs' ≡ total cs
  pub same_events : (g : ℕ) → events_at cs' g ≡ events_at cs g
  pub consistent : All IsConsistent cs'
  pub numbered : IsNumbered 0 cs'

pub room_for-Grown :
    (cs : List FdContext) (fd : ℕ)
    → 2 ≤ length cs
    → All IsConsistent cs
    → IsNumbered 0 cs
    → Grown cs (room_for cs fd) fd
unfolding room_for
room_for-Grown cs fd two con num = elim (Bool-cases (ltb fd (length cs))) [
  | inl e ↦ rw e (record {
    longer = omega arith;
    covers = omega (tests);
    same_total = refl;
    same_events = λ g. refl;
    consistent = con;
    numbered = num;
  })
  | inr e ↦
      rw (e, take_all cs (fd * 3 / 2) (omega tests))
        (record {
          longer = omega (arith, length-new cs (length cs) (fd * 3 / 2 - length cs));
          covers = omega (tests, length-new cs (length cs) (fd * 3 / 2 - length cs));
          same_total = total-new cs (length cs) (fd * 3 / 2 - length cs);
          same_events = events_at-new cs (length cs) (fd * 3 / 2 - length cs);
          consistent =
              All-append IsConsistent cs _ con (All-new (length cs) (fd * 3 / 2 - length cs));
          numbered = IsNumbered-new 0 cs (length cs) (fd * 3 / 2 - length cs) num (omega arith);
        })
]
