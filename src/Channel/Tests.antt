-- ===== src/Channel/Tests.antt =====
-- Runs of channels.
use siempre.Base.{◌≡◌, refl, true, false, [], ◌∷◌, some}
use siempre.Channel.{
  new_channel, handle_event, change, enable_reading, enable_writing, is_reading_event,
  is_write_event,
}
use siempre.Channel.Queries.{queries_forget}

-- A hang-up with no input, and an error: the callbacks for closing and for errors are called.
handle_run :
    handle_event
      (record (new_channel 3) {
        rtevents = record {
          epollin = false;
          epollpri = false;
          epollout = false;
          epollerr = true;
          epollhup = true;
        };
        close_cb = some 1;
        error_cb = some 2;
      })
      true
    ≡ 1 ∷ 2 ∷ []
unfolding handle_event new_channel
handle_run = refl

queries_forget_example :
    let both = change (change (new_channel 3) enable_reading) enable_writing in
    let r = is_reading_event both in
    let w = is_write_event both in
    (r.1 ≡ true)
    × (w.1 ≡ true)
    × ((is_write_event r.0).1 ≡ false)
    × ((is_reading_event w.0).1 ≡ false)
queries_forget_example = queries_forget (new_channel 3)
