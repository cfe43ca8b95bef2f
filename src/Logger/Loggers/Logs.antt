-- ===== src/Logger/Loggers/Logs.antt =====
-- What loggers write, and that they do not print through a null formatter.
use siempre.Base.{
  ℕ, ◌≡◌, refl, true, false, List, [], ◌∷◌, ◌++◌, Option, none, some, if◌then◌else◌, Bytes, same,
  map, ◌>>=◌, All, Bool-cases, inl, inr, arith, subst,
}
use siempre.Logger.Pattern.{Item}
use siempre.Logger.Pattern.Total.{init_total}
use siempre.Logger.Format.{Level, reaches, LogEvent, format}
use siempre.Logger.Loggers.{
  LogFormatter, new_formatter, Appender, Logger, Line, set_formatter, with_formatter, Store, find,
  update, append_log, log_all, log,
}

abbrev pub Set : Option LogFormatter → Type 0
Set none = ⊥
Set (some f) = Unit

-- Every appender has a formatter.
abbrev pub IsReady : Logger → Type 0
IsReady lg = All (λ a. Set a.formatter) lg.appenders

abbrev pub AllReady : Store → Type 0
AllReady m = All (λ x. IsReady x.1) m

abbrev items_of : Option LogFormatter → List Item
items_of none = []
items_of (some f) = f.items

nothing_after : (o : Option (List Line)) → ◌>>=◌ {B = List Line} o (λ line. none) ≡ none
nothing_after none = refl
nothing_after (some line) = refl

module _ (strftime : Bytes → ℕ → Bytes) where
  -- The lines of the appenders whose level is reached, in order.
  abbrev pub lines : List Appender → Level → LogEvent → List Line
  lines [] l e = []
  lines (a ∷ rest) l e =
      let later = lines rest l e in
      if reaches l a.level
      then (a.target, format strftime (items_of a.formatter) l e) ∷ later
      else later

  log_one :
      (a : Appender) (f : Option LogFormatter) (l : Level) (e : LogEvent)
      → a.formatter ≡ f
      → Set f
      → append_log strftime a l e
        ≡ some (if reaches l a.level then (a.target, format strftime (items_of f) l e) ∷ [] else [])
  unfolding append_log
  log_one a none l e q r = absurd r
  log_one a (some is) l e q r = elim (Bool-cases (reaches l a.level)) [
    | inl b ↦ rw (b, q) refl
    | inr b ↦ rw b refl
  ]

  log_all_lem :
      (xs : List Appender) (l : Level) (e : LogEvent)
      → All (λ a. Set a.formatter) xs
      → log_all strftime xs l e ≡ some (lines xs l e)
  unfolding log_all
  log_all_lem [] l e r = refl
  log_all_lem (a ∷ xs) l e r = elim (Bool-cases (reaches l a.level)) [
    | inl b ↦ rw (log_one a a.formatter l e refl r.0, log_all_lem xs l e r.1, b) refl
    | inr b ↦ rw (log_one a a.formatter l e refl r.0, log_all_lem xs l e r.1, b) refl
  ]

  -- A logger whose appenders have formatters writes nothing below its level; at or above it, one line
  -- for each appender whose level is reached, in order, as its formatter prints the event.
  pub log_lem :
      (lg : Logger) (l : Level) (e : LogEvent)
      → IsReady lg
      → log strftime lg l e ≡ some (if reaches l lg.level then lines lg.appenders l e else [])
  unfolding log
  log_lem lg l e r = elim (Bool-cases (reaches l lg.level)) [
    | inl b ↦ rw b (log_all_lem lg.appenders l e r)
    | inr b ↦ rw b refl
  ]

  pub log_last :
      (xs : List Appender) (a : Appender) (l : Level) (e : LogEvent)
      → a.formatter ≡ none
      → reaches l a.level ≡ true
      → log_all strftime (xs ++ (a ∷ [])) l e ≡ none
  unfolding log_all append_log
  log_last [] a l e n b = rw (b, n) refl
  log_last (x ∷ xs) a l e n b =
      rw (log_last xs a l e n b) (nothing_after (append_log strftime x l e))

pub new_formatter_lem :
    (str : Bytes)
    → (is : List Item) × (new_formatter str ≡ some (record { pattern = str; items = is }))
new_formatter_lem str = let t = init_total str in (t.0, rw t.1 refl)

new_formatter_total : (str : Bytes) → (f : LogFormatter) × (new_formatter str ≡ some f)
new_formatter_total str =
    let t = new_formatter_lem str in (record { pattern = str; items = t.0 }, t.1)

pub set_formatter-IsReady : (lg : Logger) (fmt : Bytes) → IsReady (set_formatter lg fmt)
unfolding set_formatter
set_formatter-IsReady lg fmt = go lg.appenders (new_formatter_total fmt)
  where
    go :
        (xs : List Appender)
        → (f : LogFormatter) × (new_formatter fmt ≡ some f)
        → All (λ a. Set a.formatter) (map (with_formatter (new_formatter fmt)) xs)
    go [] t = tt
    go (a ∷ xs) t = (rw t.1 tt, go xs t)

pub All-update :
    (m : Store) (n : Bytes) (f : Logger → Logger)
    → ((lg : Logger) → IsReady lg → IsReady (f lg))
    → AllReady m
    → AllReady (update m n f)
All-update [] n f h r = tt
All-update (x ∷ m) n f h r = elim (Bool-cases (same x.0 n)) [
  | inl e ↦ rw e (h x.1 r.0, r.1)
  | inr e ↦ rw e (r.0, All-update m n f h r.1)
]

pub find-IsReady :
    (m : Store) (n : Bytes) (lg : Logger) → AllReady m → find m n ≡ some lg → IsReady lg
find-IsReady [] n lg r e = ground arith
find-IsReady (x ∷ m) n lg r e = elim (Bool-cases (same x.0 n)) [
  | inl d ↦ subst IsReady (found_here d e) r.0
  | inr d ↦ find-IsReady m n lg r.1 (found_later d e)
]
  where
    found_here : same x.0 n ≡ true → find (x ∷ m) n ≡ some lg → x.1 ≡ lg
    found_here d e = ground arith

    found_later : same x.0 n ≡ false → find (x ∷ m) n ≡ some lg → find m n ≡ some lg
    found_later d e = ground arith
