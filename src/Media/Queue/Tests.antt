-- ===== src/Media/Queue/Tests.antt =====
-- live_queue.rs: concrete runs of the queue, and the theorems at concrete inputs.
use librtmp2_server.Base.{
  ℕ, ◌≡◌, refl, arith, some, List, [], ◌∷◌, keep, lookup, insert, remove, text_eqb, map_or,
}
use librtmp2_server.Media.Protocol.{
  DeliveryHint, critical, droppable, resync_point, MediaMessage, media_frame, auth_ok,
}
use librtmp2_server.Media.Queue.Defs
use librtmp2_server.Media.Queue.Defs.{
  LiveQueueConfig, LiveMediaQueue, PushResult, queued, dropped, DropCause,
}
use librtmp2_server.Media.Queue.Inner
use librtmp2_server.Media.Queue.Ops.{new, push_at, pop_at}
use librtmp2_server.Media.Queue.Ops
use librtmp2_server.Media.Queue.Outcome.{IsSound, Outcome, push_at-Outcome}
use librtmp2_server.Media.Queue.Runs.{Call, push, pop, run, run_call, new-IsSound, run-IsSound}

abbrev cfg : LiveQueueConfig
cfg = record { max_messages = 3; max_bytes = 400; max_media_age = 1000; resync_wait_max = 5000 }

abbrev frame : DeliveryHint → ℕ → MediaMessage
frame hint tag = media_frame (record {
  app = b'l' ∷ [];
  stream = b's' ∷ [];
  epoch = 1;
  frame_type = 1;
  timestamp = tag;
  timeline_ts = tag;
  hint = hint;
  payload = tag ∷ tag ∷ [];
})

abbrev queue : LiveMediaQueue
queue = new cfg

program : Unit {0}
unfolding run run_call push_at pop_at Ops.size_limit Defs.kind_of Defs.approx_size Ops.push_open
    Inner.enforce_age Inner.head_old Inner.release_expired_waits Inner.release_all keep Ops.gate
    Defs.message_names Inner.is_awaiting lookup Inner.make_room Inner.fits Ops.place
    Ops.publish_reinit Ops.finish_push Ops.enqueue Ops.book_frame Inner.modify_state insert text_eqb
    Ops.add_frame Defs.evictable Ops.append_entry Ops.note_high_water Ops.head_age_ms
    Ops.asks_reinit Inner.heaviest_evictable Inner.heaviest_from Inner.heavier Inner.purge_stream
    Inner.purge_hit Inner.has_names Inner.account_all Inner.account_removed Inner.update_state
    Inner.forget_frame Inner.prune_idle Defs.idle remove Defs.count_drop Inner.start_waiting
    Ops.settle_waiting Ops.arrive_waiting Inner.stop_waiting Ops.pop_front Inner.count_resync
    Inner.wait_expired
program = tt

abbrev calls : List Call
calls =
    push (frame critical 1) 0
    ∷ push auth_ok 1
    ∷ push (frame resync_point 2) 2
    ∷ push (frame droppable 3) 3
    ∷ pop 4
    ∷ []

-- The fourth push finds three messages, evicts the stream's resync point and is dropped itself.
fourth_push : map_or (run calls queue) 9 (λ q. q.stats.dropped_droppable) ≡ 2
unfolding program
fourth_push = refl

new-IsSound_here : IsSound queue
new-IsSound_here = new-IsSound cfg (omega arith)

run-IsSound_example : (q : LiveMediaQueue) × (run calls queue ≡ some q) × IsSound q
run-IsSound_example = run-IsSound calls queue new-IsSound_here

push_at-Outcome_example :
    (r : LiveMediaQueue × PushResult) × (push_at (frame resync_point 2) 7 queue ≡ some r)
    × Outcome (frame resync_point 2) 7 queue r
push_at-Outcome_example = push_at-Outcome (frame resync_point 2) 7 queue new-IsSound_here
