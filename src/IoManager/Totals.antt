-- ===== src/IoManager/Totals.antt =====
-- How many events are registered, from what stands at each place, and how many the calls take away.
use siempre.Base.{
  ℕ, zero, suc, ◌+◌, ◌≡◌, refl, Bool, true, false, List, [], ◌∷◌, Option, none, some, sym,
  Bool-cases, inl, inr, if◌then◌else◌, ◌==◌, length, length-append, arith, ◌∙◌, ap,
}
use siempre.IoManager.Context.{
  Event, EventContext, FdContext, Scheduled, read_event, write_event, meet, without, is_set, count,
  IsConsistent, IsSingle, Armed,
}
use siempre.IoManager.Contexts.{total, events_at, All-get_elem?}
use siempre.IoManager.Keeps.{IsValid, Changes, given, handed}
use siempre.IoManager.Triggers.{both_handed}
use siempre.IoManager.{Manager}
use siempre.IoManager.Cancel.{Drops, goes, handed_at, on_place}

abbrev behind : List FdContext → List FdContext
behind [] = []
behind (c ∷ cs) = cs

total_split : (cs : List FdContext) → total cs ≡ count (events_at cs 0) + total (behind cs)
total_split [] = omega arith
total_split (c ∷ cs) = refl

events_at-behind : (cs : List FdContext) (g : ℕ) → events_at (behind cs) g ≡ events_at cs (suc g)
events_at-behind [] g = refl
events_at-behind (c ∷ cs) g = refl

same_total :
    (cs cs' : List FdContext) → ((g : ℕ) → events_at cs' g ≡ events_at cs g) → total cs' ≡ total cs
same_total [] [] h = refl
same_total [] (c ∷ cs') h = omega (arith, ap count (h 0), same_total [] cs' (λ g. h (suc g)))
same_total (c ∷ cs) [] h = omega (arith, ap count (h 0), same_total cs [] (λ g. h (suc g)))
same_total (c ∷ cs) (c' ∷ cs') h = omega (arith, ap count (h 0), same_total cs cs' (λ g. h (suc g)))

-- Where the events of one place become `ev`, the total changes by what these count.
pub changed_total :
    (fd : ℕ) (cs cs' : List FdContext) (ev : Event)
    → ((g : ℕ) → events_at cs' g ≡ (if fd == g then ev else events_at cs g))
    → total cs' + count (events_at cs fd) ≡ total cs + count ev
changed_total zero cs cs' ev h =
    let first : events_at cs' 0 ≡ ev = h 0 in
    let later = λ (g : ℕ).
      let e : events_at cs' (suc g) ≡ events_at cs (suc g) = ground (arith, h (suc g)) in
      events_at-behind cs' g ∙ e ∙ sym (events_at-behind cs g) in
    omega (
      arith,
      total_split cs,
      total_split cs',
      ap count first,
      same_total (behind cs) (behind cs') later,
    )
changed_total (suc fd) cs cs' ev h =
    let first : events_at cs' 0 ≡ events_at cs 0 = ground (arith, h 0) in
    let later = λ (g : ℕ).
      let e : events_at (behind cs') g ≡ (if fd == g then ev else events_at (behind cs) g) =
        ground (arith, h (suc g), events_at-behind cs g, events_at-behind cs' g) in
      e in
    omega (
      arith,
      total_split cs,
      total_split cs',
      ap count first,
      ap count (events_at-behind cs fd),
      changed_total fd (behind cs) (behind cs') ev later,
    )

-- One task for a direction that is registered.
pub length-given :
    (on : Bool) (x : EventContext) → Armed on x → length (given x) ≡ (if on then 1 else 0)
length-given on x a = go x.sc refl
  where
    go : (o : Option ℕ) → x.sc ≡ o → length (given x) ≡ (if on then 1 else 0)
    go none e = ground arith
    go (some k) e = ground arith

pub length-both_handed :
    (c : FdContext) (ev : Event)
    → IsConsistent c
    → (ev.read ≡ true → c.events.read ≡ true)
    → (ev.write ≡ true → c.events.write ≡ true)
    → length (both_handed c ev) + count (without c.events ev) ≡ count c.events
length-both_handed c ev con hr hw =
    let r = length-given c.events.read c.read con.reading in
    let w = length-given c.events.write c.write con.writing in
    ground (
      arith,
      length-append (if ev.read then handed c read_event else [])
          (if ev.write then handed c write_event else []),
    )

-- What a call that answers true counts for.
abbrev pub one_if : Bool → ℕ
one_if b = if b then 1 else 0

-- The counter follows the events of the one place that changes.
pub pending-Changes :
    (m m' : Manager) (fd : ℕ) (ev : Event)
    → IsValid m
    → IsValid m'
    → Changes m m' fd ev
    → m'.pending + count (events_at m.contexts fd) ≡ m.pending + count ev
pending-Changes m m' fd ev v v' h =
    omega (arith, v.counts.counted, v'.counts.counted, changed_total fd m.contexts m'.contexts ev h)

-- How much a call that drops an event takes off the counter.
pub Drops-pending :
    (m m' : Manager) (fd : ℕ) (e : Event) (ok : Bool) (out : List Scheduled)
    → IsValid m
    → IsSingle e
    → Drops m m' fd e (goes m fd e ok) out
    → m'.pending + one_if (goes m fd e ok) ≡ m.pending
Drops-pending m m' fd e ok out v single d =
    let p = pending-Changes m m' fd _ v d.valid d.changes in ground (arith, p, single)

-- A registered direction stands for one task.
length-handed :
    (c : FdContext) (e : Event)
    → IsConsistent c
    → IsSingle e
    → is_set (meet c.events e) ≡ true
    → length (handed c e) ≡ 1
length-handed c e con single on =
    let r = length-given c.events.read c.read con.reading in
    let w = length-given c.events.write c.write con.writing in ground (arith, single, on)

pub length-handed_at :
    (m : Manager) (fd : ℕ) (e : Event) (ok : Bool)
    → IsValid m
    → IsSingle e
    → length (if goes m fd e ok then handed_at m fd e else []) ≡ one_if (goes m fd e ok)
length-handed_at m fd e ok v single = elim (Bool-cases (goes m fd e ok)) [
  | inl h ↦
      let (c, q, on, yes_ok) = on_place m fd e ok h in
      let one : length (handed_at m fd e) ≡ 1 =
        rw (q, handed_at)
          (length-handed c e (All-get_elem? IsConsistent m.contexts fd c v.counts.consistent q)
            single on) in
      rw h one
  | inr h ↦ rw h refl
]

abbrev pub no_tasks : List Scheduled
no_tasks = []

pub length-no_tasks : (b : Bool) → length (if b then no_tasks else []) ≡ 0
length-no_tasks true = refl
length-no_tasks false = refl
