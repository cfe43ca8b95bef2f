-- ===== src/Logger/Loggers/Managers.antt =====
-- Histories of calls on the manager of the loggers.
use siempre.Base.{
  ℕ, ◌≡◌, ◌≢◌, refl, true, false, List, [], ◌∷◌, ◌++◌, Option, none, some, if◌then◌else◌, is_empty,
  Bytes, same, same_refl, All-append, Bool-cases, inl, inr, arith, ap, ◌∙◌,
}
use siempre.Logger.Format.{Level, debug, reaches, LogEvent}
use siempre.Logger.Loggers.{
  stdout, file, Logger, sysfmt, new_logger, new_appender, add_appender, set_formatter, Store, find,
  update, root, new_manager, get_logger, set_root_format, add_root_file_appender, log, set_level,
  set_format_of,
}
use siempre.Logger.Loggers.Logs.{
  IsReady, AllReady, lines, log_lem, log_last, set_formatter-IsReady, All-update, find-IsReady,
}

abbrev pub map_some : (Logger → Logger) → Option Logger → Option Logger
map_some f none = none
map_some f (some lg) = some (f lg)

pub find-update :
    (m : Store) (n : Bytes) (f : Logger → Logger) → find (update m n f) n ≡ map_some f (find m n)
find-update [] n f = refl
find-update (x ∷ m) n f = elim (Bool-cases (same x.0 n)) [
  | inl e ↦ rw (e, e) refl
  | inr e ↦ rw (e, e) (find-update m n f)
]

-- Calls on the manager and its loggers, other than adding a file to the root.
pub data Call : Type 0 where
  getting : Bytes → Call
  formatting_root : Bytes → Call
  formatting : Bytes → Bytes → Call
  levelling : Bytes → Level → Call

abbrev pub perform : Store → Call → Store
perform m (getting n) = get_logger m n
perform m (formatting_root fmt) = set_root_format m fmt
perform m (formatting n fmt) = set_format_of m n fmt
perform m (levelling n l) = set_level m n l

abbrev pub run : Store → List Call → Store
run m [] = m
run m (c ∷ cs) = run (perform m c) cs

-- A valid manager: every appender has a formatter, and there is a root.
abbrev pub IsValid : Store → Type 0
IsValid m = AllReady m × ((lg : Logger) × (find m root ≡ some lg))

update-root :
    (m : Store) (n : Bytes) (f : Logger → Logger)
    → (lg : Logger) × (find m root ≡ some lg)
    → (lg : Logger) × (find (update m n f) root ≡ some lg)
update-root [] n f r = r
update-root (x ∷ m) n f r = elim (Bool-cases (same x.0 n)) [
  | inl e ↦ elim (Bool-cases (same x.0 root)) [
    | inl d ↦ (f x.1, rw (e, d) refl)
    | inr d ↦ (r.0, rw (e, d) (ground arith))
  ]
  | inr e ↦ elim (Bool-cases (same x.0 root)) [
    | inl d ↦ (x.1, rw (e, d) refl)
    | inr d ↦ rw (e, d) (update-root m n f (r.0, ground arith))
  ]
]

find-append :
    (m : Store) (x : Bytes × Logger) (n : Bytes) (lg : Logger)
    → find m n ≡ some lg
    → find (m ++ (x ∷ [])) n ≡ some lg
find-append [] x n lg e = ground arith
find-append (y ∷ m) x n lg e = elim (Bool-cases (same y.0 n)) [
  | inl d ↦ ground arith
  | inr d ↦ rw d (find-append m x n lg (ground arith))
]

new_logger-IsReady :
    (n : Bytes) → IsReady (set_formatter (add_appender (new_logger n) (new_appender stdout)) sysfmt)
new_logger-IsReady n =
    set_formatter-IsReady (add_appender (new_logger n) (new_appender stdout)) sysfmt

get_logger-IsValid : (m : Store) (n : Bytes) → IsValid m → IsValid (get_logger m n)
unfolding get_logger
get_logger-IsValid m n v = go (find m n) refl
  where
    go : (o : Option Logger) → find m n ≡ o → IsValid (get_logger m n)
    go (some lg) e = rw e v
    go none e =
        let x : Bytes × Logger =
          (n, set_formatter (add_appender (new_logger n) (new_appender stdout)) sysfmt) in
        rw e (
          All-append (λ y. IsReady y.1) m (x ∷ []) v.0 (new_logger-IsReady n, tt),
          (v.1.0, find-append m x root v.1.0 v.1.1),
        )

abbrev pub first_logger : Bytes → Logger
first_logger n = set_formatter (add_appender (new_logger n) (new_appender stdout)) sysfmt

found_last :
    (m : Store) (n : Bytes) (lg : Logger) → find m n ≡ none → find (m ++ ((n, lg) ∷ [])) n ≡ some lg
found_last [] n lg e = rw (same_refl n) refl
found_last (x ∷ m) n lg e = elim (Bool-cases (same x.0 n)) [
  | inl d ↦ ground arith
  | inr d ↦ rw d (found_last m n lg (ground arith))
]

-- A logger that is there is left, and one that is not is made with an appender of the console.
pub get_logger_lem :
    (m : Store) (n : Bytes)
    → ((lg : Logger) → find m n ≡ some lg → get_logger m n ≡ m)
      × (find m n ≡ none → find (get_logger m n) n ≡ some (first_logger n))
unfolding get_logger
get_logger_lem m n = (λ lg e. rw e refl, λ e. rw e (found_last m n (first_logger n) e))

update-IsValid :
    (m : Store) (n : Bytes) (f : Logger → Logger)
    → ((lg : Logger) → IsReady lg → IsReady (f lg))
    → IsValid m
    → IsValid (update m n f)
update-IsValid m n f h v = (All-update m n f h v.0, update-root m n f v.1)

perform-IsValid : (m : Store) (c : Call) → IsValid m → IsValid (perform m c)
unfolding set_root_format set_format_of set_level
perform-IsValid m (getting n) v = get_logger-IsValid m n v
perform-IsValid m (formatting_root fmt) v =
    update-IsValid m root (λ lg. set_formatter lg fmt) (λ lg r. set_formatter-IsReady lg fmt) v
perform-IsValid m (formatting n fmt) v =
    update-IsValid m n (λ lg. set_formatter lg fmt) (λ lg r. set_formatter-IsReady lg fmt) v
perform-IsValid m (levelling n l) v =
    update-IsValid m n (λ lg. record lg { level = l }) (λ lg r. r) v

run-IsValid : (m : Store) (cs : List Call) → IsValid m → IsValid (run m cs)
run-IsValid m [] v = v
run-IsValid m (c ∷ cs) v = run-IsValid (perform m c) cs (perform-IsValid m c v)

new_manager-IsValid : IsValid new_manager
unfolding new_manager
new_manager-IsValid = ((new_logger-IsReady root, tt), (_, refl))

-- Whatever loggers are asked for, formatted and given levels, a logger of the manager can write every
-- event without a fault.
pub logs_after :
    (strftime : Bytes → ℕ → Bytes) (cs : List Call) (n : Bytes) (lg : Logger) (l : Level)
    (e : LogEvent)
    → find (run new_manager cs) n ≡ some lg
    → log strftime lg l e
      ≡ some (if reaches l lg.level then lines strftime lg.appenders l e else [])
logs_after strftime cs n lg l e f =
    log_lem strftime lg l e
      (find-IsReady (run new_manager cs) n lg (run-IsValid new_manager cs new_manager-IsValid).0 f)

not_nil : (path : Bytes) → path ≢ [] → is_empty path ≡ false
not_nil [] n = absurd (n refl)
not_nil (c ∷ path) n = refl

-- Adding a file to the root throws if the file cannot be opened. If it can, its appender has no
-- formatter: the next event that reaches the root's level and that
-- of the appender is printed through a null pointer, until the root is given a format.
pub root_file_faults :
    (strftime : Bytes → ℕ → Bytes) (cs : List Call) (path : Bytes)
    → path ≢ []
    → (add_root_file_appender (run new_manager cs) path false ≡ none)
      × (m : Store) × (add_root_file_appender (run new_manager cs) path true ≡ some m)
      × (lg : Logger) × (find m root ≡ some lg)
      × ((l : Level) (e : LogEvent)
          → reaches l lg.level ≡ true
          → reaches l debug ≡ true
          → log strftime lg l e ≡ none)
      × ((fmt : Bytes)
          → (lg' : Logger) × (find (set_root_format m fmt) root ≡ some lg') × IsReady lg')
unfolding add_root_file_appender set_root_format add_appender log
root_file_faults strftime cs path n =
    let m = run new_manager cs in
    let v = run-IsValid new_manager cs new_manager-IsValid in
    let lg = v.1.0 in
    let add : Logger → Logger = λ x. add_appender x (new_appender (file path)) in
    let f : find (update m root add) root ≡ some (add lg) =
      find-update m root add ∙ ap (map_some add) v.1.1 in
    let p : is_empty path ≡ false = not_nil path n in
    (
      rw p refl,
      update m root add,
      rw p refl,
      add lg,
      f,
      (λ l e r d. rw r (log_last strftime lg.appenders (new_appender (file path)) l e refl d)),
      λ fmt. (
        set_formatter (add lg) fmt,
        find-update (update m root add) root (λ x. set_formatter x fmt)
            ∙ ap (map_some (λ x. set_formatter x fmt)) f,
        set_formatter-IsReady (add lg) fmt,
      ),
    )
