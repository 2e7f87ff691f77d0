-- ===== src/Media/Queue/Runs.antt =====
-- live_queue.rs: the calls of `LiveMediaQueue` one after another. The lock makes each call one
-- step, so a run of the queue is a list of calls with the instants at which they happen.
use librtmp2_server.Base.{
  ℕ, ◌+◌, ◌<◌, ◌≡◌, refl, sym, ap, subst, arith, Bool, Option, none, some, List, [], ◌∷◌, Map,
  lookup, pair_eq, text_eq, keep, length, map_or, if-elim, u64_mod,
}
use librtmp2_server.Media.Protocol.{MediaMessage}
use librtmp2_server.Media.Queue.Defs.{
  LiveQueueConfig, LiveQueueStats, Entry, StreamState, Names, Inner, stale, LiveMediaQueue,
}
use librtmp2_server.Media.Queue.Inner.{
  start_waiting, flag_reinit, purge_stream, enforce_age, release_expired_waits,
}
use librtmp2_server.Media.Queue.Ops.{
  new, push_at, note_high_water, pop_front, pop_at, close, reset_streams, holds_evictable,
  on_connection_reset, clear_reinit, reinit_taken, take_reinit, mark_reinit,
}
use librtmp2_server.Media.Queue.Books.{
  sum_by, stream_bytes, stream_frames, Books, Neutral, account_removed-Books,
}
use librtmp2_server.Media.Queue.Keeps.{
  Keeps, Keeps-refl, Keeps-trans, account_removed-SameBut, start_waiting-Neutral,
  flag_reinit-Neutral, modify_state-Keeps, update_state-Keeps, prune_idle-Keeps,
}
use librtmp2_server.Media.Queue.Purges.{
  purge_stream-Keeps, enforce_age-Keeps, release_expired_waits-Keeps, other_counter-Keeps,
}
use librtmp2_server.Media.Queue.Outcome.{
  IsSound, Keeps-IsSound, push_at-Outcome, note_high_water-same,
}

-- A new queue is sound, if the byte bound is below `usize::MAX`.
pub new-IsSound : (cfg : LiveQueueConfig) → cfg.max_bytes + 1 < u64_mod → IsSound (new cfg)
unfolding stream_bytes stream_frames lookup sum_by
new-IsSound cfg w = record {
  books = record { total = refl; evictables = λ k. refl; frames = λ k. refl };
  distinct = tt;
  tally = record { tallied = refl };
  few = omega arith;
  light = omega arith;
  word = w;
}

pop_front-IsSound :
    (q : LiveMediaQueue) (es : List Entry) (g : Inner) (s : LiveQueueStats)
    → IsSound q
    → Keeps q.inner q.stats g s
    → g.entries ≡ es
    → IsSound (pop_front es g s q).0
unfolding pop_front stream_bytes stream_frames
pop_front-IsSound q [] g s h k e = Keeps-IsSound q g s q.reinit_pending h k
pop_front-IsSound q (x ∷ es) g s h k e =
    let same = account_removed-SameBut x (record g { entries = es }) in
    let b : Books g (x ∷ es) = subst (Books g) e (k.books h.books) in
    record {
      books = subst (Books _) (sym same.same_entries) (
          account_removed-Books x (record g { entries = es }) es
            (record { total = b.total; evictables = b.evictables; frames = b.frames }));
      distinct = same.still_distinct (k.distinct h.distinct);
      tally = k.tally h.tally;
      few = omega (
        arith,
        ap (λ (l : List Entry). length l) same.same_entries,
        ap (λ (l : List Entry). length l) e,
        k.shorter,
        h.few,
      );
      light = omega (arith, same.same_bytes, k.lighter, h.light);
      word = h.word;
    }

high_water-Keeps :
    (g : Inner) (now : ℕ) (s : LiveQueueStats) → Keeps g s g (note_high_water g now s)
high_water-Keeps g now s =
    let (same, tally) = note_high_water-same g now s in other_counter-Keeps g s _ same tally

pop_at-IsSound : (now : ℕ) (q : LiveMediaQueue) → IsSound q → IsSound (pop_at now q).0
unfolding pop_at
pop_at-IsSound now q h =
    if-elim (λ (r : LiveMediaQueue × Option MediaMessage). IsSound r.0) q.inner.is_closed (λ c. h)
      (λ o.
        let seen = note_high_water q.inner now q.stats in
        let aged = enforce_age now q.cfg q.inner seen in
        let freed = release_expired_waits now q.cfg aged.0 aged.1 in
        pop_front-IsSound q freed.0.entries freed.0 freed.1 h
          (Keeps-trans (high_water-Keeps q.inner now q.stats) (
            Keeps-trans (enforce_age-Keeps now q.cfg q.inner seen)
              (release_expired_waits-Keeps now q.cfg aged.0 aged.1)))
          refl)

close-IsSound : (q : LiveMediaQueue) → IsSound q → IsSound (close q)
unfolding close stream_bytes stream_frames lookup sum_by
close-IsSound q h = record {
  books = record { total = refl; evictables = λ k. refl; frames = λ k. refl };
  distinct = tt;
  tally = record { tallied = h.tally.tallied };
  few = omega arith;
  light = omega arith;
  word = h.word;
}

reset_streams-Keeps :
    (xs : Map Names StreamState) (now : ℕ) (g : Inner) (s : LiveQueueStats)
    → Keeps g s (reset_streams xs now g s).0 (reset_streams xs now g s).1
unfolding reset_streams
reset_streams-Keeps [] now g s = Keeps-refl g s
reset_streams-Keeps ((k, st) ∷ xs) now g s =
    let p = purge_stream k stale g s in
    Keeps-trans (purge_stream-Keeps k stale g s) (
      Keeps-trans (modify_state-Keeps k p.0 p.1 (start_waiting now) (start_waiting-Neutral now))
        (reset_streams-Keeps xs now _ p.1))

on_connection_reset-IsSound :
    (now : ℕ) (q : LiveMediaQueue) → IsSound q → IsSound (on_connection_reset now q)
unfolding on_connection_reset
on_connection_reset-IsSound now q h =
    Keeps-IsSound q _ _ q.reinit_pending h
      (reset_streams-Keeps (keep holds_evictable q.inner.streams) now q.inner q.stats)

clear_reinit-Neutral : Neutral clear_reinit
unfolding clear_reinit
clear_reinit-Neutral st = (refl, refl)

take_reinit-IsSound : (k : Names) (q : LiveMediaQueue) → IsSound q → IsSound (take_reinit k q).0
unfolding take_reinit reinit_taken
take_reinit-IsSound k q h =
    if-elim (λ (r : LiveMediaQueue × Bool). IsSound r.0) q.reinit_pending
      (λ p. Keeps-IsSound q _ _ _ h (
        Keeps-trans (update_state-Keeps k q.inner q.stats clear_reinit clear_reinit-Neutral)
          (prune_idle-Keeps k _ q.stats)))
      (λ p. h)

mark_reinit-IsSound : (k : Names) (q : LiveMediaQueue) → IsSound q → IsSound (mark_reinit k q)
unfolding mark_reinit
mark_reinit-IsSound k q h =
    Keeps-IsSound q _ _ _ h (modify_state-Keeps k q.inner q.stats flag_reinit flag_reinit-Neutral)

-- A call, with the instant that it reads.
pub data Call : Type 0 where
  push : MediaMessage → ℕ → Call
  pop connection_reset : ℕ → Call
  reinit_taken_for reinit_marked_for : Names → Call
  closing : Call

unfoldable pub run_call : Call → LiveMediaQueue → Option LiveMediaQueue
run_call (push msg now) q = map_or (push_at msg now q) none (λ r. some r.0)
run_call (pop now) q = some (pop_at now q).0
run_call (connection_reset now) q = some (on_connection_reset now q)
run_call (reinit_taken_for k) q = some (take_reinit k q).0
run_call (reinit_marked_for k) q = some (mark_reinit k q)
run_call closing q = some (close q)

unfoldable pub run : List Call → LiveMediaQueue → Option LiveMediaQueue
run [] q = some q
run (c ∷ cs) q = map_or (run_call c q) none (λ q'. run cs q')

run_call-IsSound :
    (c : Call) (q : LiveMediaQueue)
    → IsSound q
    → (q' : LiveMediaQueue) × (run_call c q ≡ some q') × IsSound q'
unfolding run_call
run_call-IsSound (push msg now) q h =
    let (r, runs, o) = push_at-Outcome msg now q h in (r.0, rw runs, o.sound)
run_call-IsSound (pop now) q h = (_, refl, pop_at-IsSound now q h)
run_call-IsSound (connection_reset now) q h = (_, refl, on_connection_reset-IsSound now q h)
run_call-IsSound (reinit_taken_for k) q h = (_, refl, take_reinit-IsSound k q h)
run_call-IsSound (reinit_marked_for k) q h = (_, refl, mark_reinit-IsSound k q h)
run_call-IsSound closing q h = (_, refl, close-IsSound q h)

-- On a sound queue, whatever calls are made, at whatever instants: every one of them answers (no
-- eviction loop runs on for ever), and the queue is sound afterwards. So it has at most
-- `max_messages` entries of at most `max_bytes` together; its byte total, and for every stream the
-- evictable bytes and the frame count, are those of the entries; and the total of dropped frames
-- is the sum of the four categories, modulo 2^64.
pub run-IsSound :
    (cs : List Call) (q : LiveMediaQueue)
    → IsSound q
    → (q' : LiveMediaQueue) × (run cs q ≡ some q') × IsSound q'
unfolding run
run-IsSound [] q h = (q, refl, h)
run-IsSound (c ∷ cs) q h =
    let (q', runs, h') = run_call-IsSound c q h in rw runs (run-IsSound cs q' h')
