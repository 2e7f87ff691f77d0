-- ===== src/Media/Queue/Outcome.antt =====
-- live_queue.rs, `push_at`: the outcome of every branch, put together.
use librtmp2_server.Base.{
  ℕ, suc, ◌+◌, ◌%◌, ◌≤◌, ◌<◌, ◌≡◌, refl, sym, ap, ◌∙◌, arith, Bool, true, false, Option, some, List,
  [], ◌∷◌, ◌++◌, inl, inr, Distinct, pair_eq, text_eq, keep, keep-append, length, length-append,
  append-nil, ltb, if-elim, u64_mod,
}
use librtmp2_server.Media.Protocol.{droppable, MediaMessage}
use librtmp2_server.Media.Queue.Defs.{
  LiveQueueConfig, LiveQueueStats, Kind, control, media, Entry, Inner, pressure, LiveMediaQueue,
  PushResult, queued, dropped, DropCause, oversized, awaiting_resync, full, closed, kind_of,
  approx_size, count_drop,
}
use librtmp2_server.Media.Queue.Inner.{enforce_age, release_expired_waits, fits}
use librtmp2_server.Media.Queue.Ops.{
  size_limit, arrive_waiting, settle_waiting, gate, note_high_water, book_frame, append_entry,
  enqueue, publish_reinit, finish_push, count_refused, place, push_open, count_oversized, push_at,
}
use librtmp2_server.Media.Queue.Books.{stream_bytes, stream_frames, Books}
use librtmp2_server.Media.Queue.Keeps.{
  Tally, balance, is_control, Keeps, Keeps-refl, Keeps-trans, count_drop-Tally, count_drop-total,
}
use librtmp2_server.Media.Queue.Purges.{enforce_age-Keeps, release_expired_waits-Keeps}
use librtmp2_server.Media.Queue.Room.{Answer, make_room_total}
use librtmp2_server.Media.Queue.Push.{
  arrive_waiting-cases, settle_waiting-cases, gate-cases, entry, after, after-entries, after-Books,
  book_frame-rest,
}

-- What holds of a queue between two calls.
pub record IsSound (q : LiveMediaQueue) : Type 0 where
  pub books : Books q.inner q.inner.entries
  pub distinct : Distinct q.inner.streams
  pub tally : Tally q.stats
  pub few : length q.inner.entries ≤ q.cfg.max_messages
  pub light : q.inner.bytes ≤ q.cfg.max_bytes
  -- the byte bound is a `usize` below `usize::MAX`
  pub word : q.cfg.max_bytes + 1 < u64_mod

-- Whether a pushed message shows in the queue or in the drop counters.
unfoldable pub refused_charge : Kind → ℕ
refused_charge control = 0
refused_charge (media h) = 1

unfoldable pub charge : MediaMessage → PushResult → ℕ
charge msg queued = 1
charge msg (dropped closed) = 0
charge msg (dropped full) = refused_charge (kind_of msg)
charge msg (dropped _) = 1

-- The control message that a push adds.
unfoldable pub added_control : MediaMessage → ℕ → PushResult → List Entry
added_control msg now queued =
    keep is_control
      (record { msg = msg; size = approx_size msg; at = now; kind = kind_of msg } ∷ [])
added_control msg now (dropped cause) = []

pub record Outcome (msg : MediaMessage) (now : ℕ) (q : LiveMediaQueue)
    (r : LiveMediaQueue × PushResult) : Type 0 where
  pub sound : IsSound r.0
  pub balanced :
      balance r.0.inner r.0.stats
      ≡ (length q.inner.entries + q.stats.dropped_total + charge msg r.1) % u64_mod
  pub controls :
      keep is_control r.0.inner.entries
      ≡ keep is_control q.inner.entries ++ added_control msg now r.1
  pub same_closed : r.0.inner.is_closed ≡ q.inner.is_closed
  pub same_cfg : r.0.cfg ≡ q.cfg

-- A state that keeps everything is as sound.
pub Keeps-IsSound :
    (q : LiveMediaQueue) (g : Inner) (s : LiveQueueStats) (pending : Bool)
    → IsSound q
    → Keeps q.inner q.stats g s
    → IsSound (record q { inner = g; stats = s; reinit_pending = pending })
Keeps-IsSound q g s pending h k = record {
  books = k.books h.books;
  distinct = k.distinct h.distinct;
  tally = k.tally h.tally;
  few = omega (arith, k.shorter, h.few);
  light = omega (arith, k.lighter, h.light);
  word = h.word;
}

-- A message is refused, and counted or not.
refuse-Outcome :
    (msg : MediaMessage) (now : ℕ) (q : LiveMediaQueue) (g : Inner) (s s' : LiveQueueStats)
    (pending : Bool) (cause : DropCause)
    → IsSound q
    → Keeps q.inner q.stats g s
    → (Tally s → Tally s')
    → s'.dropped_total % u64_mod ≡ (s.dropped_total + charge msg (dropped cause)) % u64_mod
    → Outcome msg now q
        (record q { inner = g; stats = s'; reinit_pending = pending }, dropped cause)
unfolding added_control
refuse-Outcome msg now q g s s' pending cause h k t c = record {
  sound = record {
    books = k.books h.books;
    distinct = k.distinct h.distinct;
    tally = t (k.tally h.tally);
    few = omega (arith, k.shorter, h.few);
    light = omega (arith, k.lighter, h.light);
    word = h.word;
  };
  balanced = omega (arith, k.balanced, c);
  controls = k.controls ∙ sym (append-nil _);
  same_closed = k.closed_same;
  same_cfg = refl;
}

pub note_high_water-same :
    (g : Inner) (now : ℕ) (s : LiveQueueStats)
    → ((note_high_water g now s).dropped_total ≡ s.dropped_total)
      × (Tally s → Tally (note_high_water g now s))
unfolding note_high_water
note_high_water-same g now s = (refl, λ t. record { tallied = t.tallied })

-- A message is queued where there is room.
enqueue-Outcome :
    (msg : MediaMessage) (now : ℕ) (q : LiveMediaQueue) (g : Inner) (s : LiveQueueStats)
    (pending : Bool)
    → IsSound q
    → Keeps q.inner q.stats g s
    → length g.entries < q.cfg.max_messages
    → g.bytes + approx_size msg ≤ q.cfg.max_bytes
    → Outcome msg now q (
      record q {
        inner = after msg (approx_size msg) now g;
        stats = note_high_water (after msg (approx_size msg) now g) now s;
        reinit_pending = pending;
      },
      queued,
    )
unfolding added_control charge append_entry
enqueue-Outcome msg now q g s pending h k room light = record {
  sound = record {
    books = after-Books msg size now g (k.books h.books);
    distinct = rest.3 (k.distinct h.distinct);
    tally = (note_high_water-same _ now s).1 (k.tally h.tally);
    few = omega (arith, longer, room);
    light = omega (arith, rest.1, light);
    word = h.word;
  };
  balanced =
      omega (arith, k.balanced, longer, (note_high_water-same (after msg size now g) now s).0);
  controls =
      ap (keep is_control) grown
      ∙ keep-append is_control g.entries (entry msg size now ∷ [])
      ∙ ap (λ es. es ++ keep is_control (entry msg size now ∷ [])) k.controls;
  same_closed = rest.2 ∙ k.closed_same;
  same_cfg = refl;
}
  where
    size : ℕ
    size = approx_size msg

    b : Books g g.entries
    b = k.books h.books

    rest :
        ((book_frame msg size g).entries ≡ g.entries)
        × ((book_frame msg size g).bytes ≡ g.bytes)
        × ((book_frame msg size g).is_closed ≡ g.is_closed)
        × (Distinct g.streams → Distinct (book_frame msg size g).streams)
    rest = book_frame-rest msg size now g b

    grown : (after msg size now g).entries ≡ g.entries ++ (entry msg size now ∷ [])
    grown = after-entries msg size now g b

    longer : length (after msg size now g).entries ≡ length g.entries + 1
    longer = omega (
      arith,
      ap (λ (es : List Entry). length es) grown,
      length-append g.entries (entry msg size now ∷ []),
    )

-- What a state with room offers.
fits→room :
    (size : ℕ) (cfg : LiveQueueConfig) (g : Inner)
    → cfg.max_bytes + 1 < u64_mod
    → fits size cfg g ≡ true
    → (length g.entries < cfg.max_messages) × (g.bytes + size ≤ cfg.max_bytes)
unfolding fits
fits→room size cfg g w h = (ground arith, ground arith)

publish-Keeps :
    (q : LiveMediaQueue) (g : Inner) (s : LiveQueueStats)
    → Keeps g s (record g { reinit_dirty = false }) s
unfolding stream_bytes stream_frames
publish-Keeps q g s = record {
  books = λ b. record { total = b.total; evictables = b.evictables; frames = b.frames };
  distinct = λ d. d;
  tally = λ t. t;
  balanced = refl;
  controls = refl;
  shorter = omega arith;
  lighter = omega arith;
  closed_same = refl;
}

finish_push-Outcome :
    (msg : MediaMessage) (now : ℕ) (q : LiveMediaQueue) (g : Inner) (s : LiveQueueStats)
    → IsSound q
    → Keeps q.inner q.stats g s
    → length g.entries < q.cfg.max_messages
    → g.bytes + approx_size msg ≤ q.cfg.max_bytes
    → Outcome msg now q (finish_push msg now (publish_reinit q g s))
unfolding finish_push publish_reinit enqueue charge
finish_push-Outcome msg now q g s h k room light =
    elim (gate-cases settle_waiting settle_waiting-cases msg shown s) [
      | inl (on, kept) ↦ rw on (
          enqueue-Outcome msg now q _ _ _ h (Keeps-trans here kept)
            (omega (arith, kept.shorter, room)) (omega (arith, kept.lighter, light)))
      | inr off ↦ rw off (
          refuse-Outcome msg now q shown s (count_drop s (media droppable) pressure) _
            awaiting_resync h here (count_drop-Tally s (media droppable) pressure)
            (omega (arith, count_drop-total s (media droppable) pressure)))
    ]
  where
    shown : Inner
    shown = record g { reinit_dirty = false }

    here : Keeps q.inner q.stats shown s
    here = Keeps-trans k (publish-Keeps q g s)

count_refused-same :
    (kind : Kind) (s : LiveQueueStats)
    → (Tally s → Tally (count_refused kind s))
      × ((count_refused kind s).dropped_total % u64_mod
          ≡ (s.dropped_total + refused_charge kind) % u64_mod)
unfolding count_refused refused_charge
count_refused-same control s = (λ t. t, omega arith)
count_refused-same (media h) s =
    (count_drop-Tally s (media h) pressure, omega (arith, count_drop-total s (media h) pressure))

place-Outcome :
    (msg : MediaMessage) (now : ℕ) (q : LiveMediaQueue) (g : Inner) (s : LiveQueueStats)
    (r : Bool × Inner × LiveQueueStats)
    → IsSound q
    → Keeps q.inner q.stats g s
    → Answer (approx_size msg) q.cfg g s r
    → Outcome msg now q (place msg now q r)
unfolding place publish_reinit charge
place-Outcome msg now q g s (true, g', s') h k a =
    let (few, light) = fits→room (approx_size msg) q.cfg g' h.word (a.room refl) in
    finish_push-Outcome msg now q g' s' h (Keeps-trans k a.keeps) few light
place-Outcome msg now q g s (false, g', s') h k a =
    let (tally, count) = count_refused-same (kind_of msg) s' in
    refuse-Outcome msg now q _ s' (count_refused (kind_of msg) s') _ full h
      (Keeps-trans (Keeps-trans k a.keeps) (publish-Keeps q g' s')) tally count

push_open-Outcome :
    (msg : MediaMessage) (now : ℕ) (q : LiveMediaQueue)
    → IsSound q
    → (r : LiveMediaQueue × PushResult) × (push_open msg now q ≡ some r) × Outcome msg now q r
unfolding push_open
push_open-Outcome msg now q h =
    elim (gate-cases arrive_waiting arrive_waiting-cases msg released.0 released.1) [
      | inl (on, kept) ↦
          let k = Keeps-trans before kept in
          let kept_entries : List Entry =
            (gate arrive_waiting msg released.0 released.1).1.0.entries in
          let (r, runs, answer) =
            make_room_total (suc (length kept_entries)) (approx_size msg) now q.cfg _ _
              (k.books h.books) (k.distinct h.distinct) (omega arith) in
          (place msg now q r, rw (on, runs), place-Outcome msg now q _ _ r h k answer)
      | inr off ↦ (
        (
          record q { inner = released.0; stats = count_drop released.1 (media droppable) pressure },
          dropped awaiting_resync,
        ),
        rw off,
        refuse-Outcome msg now q released.0 released.1 _ q.reinit_pending awaiting_resync h before
            (count_drop-Tally released.1 (media droppable) pressure)
            (unfold charge in
              omega (arith, count_drop-total released.1 (media droppable) pressure)),
      )
    ]
  where
    aged : Inner × LiveQueueStats
    aged = enforce_age now q.cfg q.inner q.stats

    released : Inner × LiveQueueStats
    released = release_expired_waits now q.cfg aged.0 aged.1

    before : Keeps q.inner q.stats released.0 released.1
    before =
        Keeps-trans (enforce_age-Keeps now q.cfg q.inner q.stats)
          (release_expired_waits-Keeps now q.cfg aged.0 aged.1)

-- Every push answers, on a sound queue, with an outcome.
pub push_at-Outcome :
    (msg : MediaMessage) (now : ℕ) (q : LiveMediaQueue)
    → IsSound q
    → (r : LiveMediaQueue × PushResult) × (push_at msg now q ≡ some r) × Outcome msg now q r
unfolding push_at
push_at-Outcome msg now q h =
    if-elim Answers q.inner.is_closed
      (λ c. (
        (q, dropped closed),
        refl,
        refuse-Outcome msg now q q.inner q.stats q.stats q.reinit_pending closed h
            (Keeps-refl q.inner q.stats) (λ t. t) (unfold charge in omega arith),
      ))
      (λ o.
        if-elim Answers (ltb (size_limit (kind_of msg) q.cfg) (approx_size msg))
          (λ big. (
            (record q { stats = count_oversized q.stats }, dropped oversized),
            refl,
            refuse-Outcome msg now q q.inner q.stats (count_oversized q.stats) q.reinit_pending
                oversized h (Keeps-refl q.inner q.stats)
                (λ t. record { tallied = unfold count_oversized in omega (arith, t.tallied) })
                (unfold charge count_oversized in omega arith),
          ))
          (λ small. push_open-Outcome msg now q h))
  where
    Answers : Option (LiveMediaQueue × PushResult) → Type 0
    Answers a = (r : LiveMediaQueue × PushResult) × (a ≡ some r) × Outcome msg now q r
