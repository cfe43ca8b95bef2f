-- ===== src/Fiber/Entered.antt =====
-- A new fiber that is entered and runs to the end of its entry function, and the idle fiber's turns.
use siempre.Base.{ℕ, ◌≡◌, ◌≢◌, refl, Bool, true, false, none, some, arith, if◌then◌else◌}
use siempre.Fiber.{ready, exec, Thread, entry, put, new_fiber, resume, yield, main_func_end}

-- What a scheduler's worker relies on while control is in its loop: the flow of the loop goes on where
-- it left off, under a dispatching fiber `m`.
pub record Dispatches (t : Thread) (m : ℕ) : Type 0 where
  pub dispatcher : t.main_fiber ≡ some m
  pub open_flow : t.running.done ≡ false

-- What holds once control is back: only the fiber `f` and the contexts of `f` and `m` were touched.
pub record Back (t t' : Thread) (m f : ℕ) : Type 0 where
  pub same_flow : t'.running ≡ t.running
  pub same_dispatcher : t'.main_fiber ≡ t.main_fiber
  pub other_fibers : (g : ℕ) → g ≢ f → t'.fibers g ≡ t.fibers g
  pub other_flows : (g : ℕ) → g ≢ f → g ≢ m → t'.saved g ≡ t.saved g

-- A new fiber of the scheduler is entered at its entry function with its callback, as the current
-- fiber; at the end of that function, whether the callback returned or threw, control is back.
pub entered_lem :
    (t : Thread) (m f c : ℕ)
    → Dispatches t m
    → f ≢ m
    → (t1 : Thread) × (resume (new_fiber t f (some c) true) f ≡ some t1)
      × (t1.current ≡ some f)
      × ((t1.fibers f).cb ≡ some c)
      × ((threw : Bool) → (t2 : Thread) × (main_func_end t1 f threw ≡ some t2) × Back t t2 m f)
unfolding new_fiber resume main_func_end yield
entered_lem t m f c d n =
    let made : Thread = new_fiber t f (some c) true in
    let t1 : Thread = record made {
      fibers = put made.fibers f (record (made.fibers f) { state = exec });
      saved = put made.saved m t.running;
      running = entry f;
      current = some f;
    } in
    (
      t1,
      ground (arith, d.dispatcher),
      refl,
      ground arith,
      λ threw. (
        record t1 {
          fibers =
              put t1.fibers f
                (record (t1.fibers f) { cb = if threw then some c else none; state = ready });
          saved = put t1.saved f (record { fiber = f; done = true });
          running = t.running;
          current = t.thread_fiber;
        },
        ground (arith, d.dispatcher, d.open_flow),
        record {
          same_flow = refl;
          same_dispatcher = refl;
          other_fibers = λ g k. ground arith;
          other_flows = λ g k l. ground arith;
        },
      ),
    )

-- The idle fiber of the scheduler, wherever its flow stands, is resumed and yields: control is back and
-- its flow stands there again.
pub idle_turn :
    (t : Thread) (m i : ℕ)
    → Dispatches t m
    → i ≢ m
    → (t.fibers i).in_scheduler ≡ true
    → (t.saved i).done ≡ false
    → (t1 : Thread) × (resume t i ≡ some t1)
      × (t1.current ≡ some i)
      × (t2 : Thread) × (yield t1 i ≡ some t2)
      × Back t t2 m i
      × ((t2.fibers i).in_scheduler ≡ true)
      × ((t2.fibers i).state ≡ ready)
      × (t2.saved i ≡ t.saved i)
unfolding resume yield
idle_turn t m i d n s o =
    let t1 : Thread = record t {
      fibers = put t.fibers i (record (t.fibers i) { state = exec });
      saved = put t.saved m t.running;
      running = t.saved i;
      current = some i;
    } in
    (
      t1,
      ground (arith, d.dispatcher),
      refl,
      record t1 {
        fibers = put t1.fibers i (record (t1.fibers i) { state = ready });
        saved = put t1.saved i (t.saved i);
        running = t.running;
        current = t.thread_fiber;
      },
      ground (arith, d.dispatcher, d.open_flow),
      record {
        same_flow = refl;
        same_dispatcher = refl;
        other_fibers = λ g k. ground arith;
        other_flows = λ g k l. ground arith;
      },
      ground arith,
      ground arith,
      ground arith,
    )
