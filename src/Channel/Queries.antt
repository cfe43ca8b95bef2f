-- ===== src/Channel/Queries.antt =====
-- The interest of a channel, and what asking for it does.
use siempre.Base.{◌≡◌, true, false, arith}
use siempre.Channel.{
  Channel, enable_reading, enable_writing, change, is_reading_event, is_write_event,
}

-- A channel that reads and writes answers true to the first of two questions. But asking whether it
-- reads drops the interest in writing, and asking whether it writes drops the interest in reading: the
-- other question is then answered false.
pub queries_forget :
    (c : Channel)
    → let both = change (change c enable_reading) enable_writing in
      let r = is_reading_event both in
      let w = is_write_event both in
      (r.1 ≡ true)
      × (w.1 ≡ true)
      × ((is_write_event r.0).1 ≡ false)
      × ((is_reading_event w.0).1 ≡ false)
unfolding change is_reading_event is_write_event
queries_forget c = (ground arith, ground arith, ground arith, ground arith)
