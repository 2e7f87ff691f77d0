-- ===== src/Media/Queue/Push.antt =====
-- live_queue.rs, `push_at`: the steps in front of a frame, and the book-keeping of a new entry.
use librtmp2_server.Base.{
  ℕ, ◌+◌, ◌≡◌, refl, sym, ap, ◌∙◌, subst, arith, Bool, true, false, ◌⊎◌, some, [], ◌∷◌, ◌++◌, inl,
  inr, view-insert_at, Distinct, insert-Distinct, pair_eq, text_eq, Bool-cases, Option-cases,
}
use librtmp2_server.Media.Protocol.{critical, droppable, resync_point, MediaMessage}
use librtmp2_server.Media.Queue.Defs.{
  LiveQueueStats, Kind, control, media, Entry, StreamState, Names, Inner, stale, pressure, kind_of,
  message_names, count_drop,
}
use librtmp2_server.Media.Queue.Inner.{modify_state, is_awaiting, purge_stream, stop_waiting}
use librtmp2_server.Media.Queue.Ops.{
  arrive_waiting, settle_waiting, gate, add_frame, book_frame, append_entry,
}
use librtmp2_server.Media.Queue.Books.{
  sum_by, sum_by-append, byte_weight, frame_weight, entry_size, stream_bytes, stream_frames, Books,
  unnamed_weights, named_weights, same_names,
}
use librtmp2_server.Media.Queue.Keeps.{
  Keeps, Keeps-refl, Keeps-trans, stop_waiting-Neutral, update_state-Keeps,
}
use librtmp2_server.Media.Queue.Purges.{purge_stream-Keeps, count_resync-Keeps}

-- A step in front of a frame lets it pass and keeps everything, or drops it and counts it.
abbrev pub GateCases : Inner → LiveQueueStats → Bool × (Inner × LiveQueueStats) → Type 0
GateCases g s r =
    ((r.0 ≡ true) × Keeps g s r.1.0 r.1.1)
    ⊎ (r ≡ (false, (g, count_drop s (media droppable) pressure)))

pub arrive_waiting-cases :
    (kind : Kind) (k : Names) (g : Inner) (s : LiveQueueStats)
    → GateCases g s (arrive_waiting kind k g s)
unfolding arrive_waiting
arrive_waiting-cases control k g s = inl (refl, Keeps-refl g s)
arrive_waiting-cases (media critical) k g s = inl (refl, Keeps-refl g s)
arrive_waiting-cases (media droppable) k g s = inr refl
arrive_waiting-cases (media resync_point) k g s =
    let p = purge_stream k stale g s in
    inl (
      refl,
      Keeps-trans (purge_stream-Keeps k stale g s) (
          Keeps-trans (update_state-Keeps k p.0 p.1 stop_waiting stop_waiting-Neutral)
            (count_resync-Keeps _ p.1)),
    )

pub settle_waiting-cases :
    (kind : Kind) (k : Names) (g : Inner) (s : LiveQueueStats)
    → GateCases g s (settle_waiting kind k g s)
unfolding settle_waiting
settle_waiting-cases control k g s = inl (refl, Keeps-refl g s)
settle_waiting-cases (media critical) k g s = inl (refl, Keeps-refl g s)
settle_waiting-cases (media droppable) k g s = inr refl
settle_waiting-cases (media resync_point) k g s = inl (
  refl,
  Keeps-trans (update_state-Keeps k g s stop_waiting stop_waiting-Neutral) (count_resync-Keeps _ s),
)

pub gate-cases :
    (step : Kind → Names → Inner → LiveQueueStats → Bool × (Inner × LiveQueueStats))
    → ((kind : Kind) (k : Names) (g : Inner) (s : LiveQueueStats) → GateCases g s (step kind k g s))
    → (msg : MediaMessage) (g : Inner) (s : LiveQueueStats) → GateCases g s (gate step msg g s)
unfolding gate
gate-cases step cases msg g s = elim (Option-cases (message_names msg)) [
  | inl e ↦ rw e (inl (refl, Keeps-refl g s))
  | inr (k, e) ↦ rw e (elim (Bool-cases (is_awaiting k g)) [
    | inl w ↦ rw w (cases (kind_of msg) k g s)
    | inr w ↦ rw w (inl (refl, Keeps-refl g s))
  ])
]

-- The new entry, and the state with it.
abbrev pub entry : MediaMessage → ℕ → ℕ → Entry
entry msg size now = record { msg = msg; size = size; at = now; kind = kind_of msg }

abbrev pub after : MediaMessage → ℕ → ℕ → Inner → Inner
after msg size now g = append_entry msg size now (book_frame msg size g)

-- The book-keeping of a new entry.
module _ (msg : MediaMessage) (size now : ℕ) (g : Inner) (b : Books g g.entries) where
  one_more :
      (f : Entry → ℕ)
      → sum_by f (g.entries ++ (entry msg size now ∷ []))
        ≡ sum_by f g.entries + f (entry msg size now)
  unfolding sum_by
  one_more f = omega (arith, sum_by-append f g.entries (entry msg size now ∷ []))

  book_frame_named :
      (k : Names) (e : message_names msg ≡ some k) (j : Names)
      → (stream_bytes j (modify_state k (add_frame (kind_of msg) size) g)
          ≡ stream_bytes j g + byte_weight j (entry msg size now))
        × (stream_frames j (modify_state k (add_frame (kind_of msg) size) g)
            ≡ stream_frames j g + frame_weight j (entry msg size now))
  unfolding stream_bytes stream_frames modify_state add_frame
  book_frame_named k e j = (
    view-insert_at (λ (st : StreamState). st.evictable_bytes) 0 j k g.streams _
        ∙ ground (arith, same_names k j, (named_weights j (entry msg size now) k e).0),
    view-insert_at (λ (st : StreamState). st.queued_frames) 0 j k g.streams _
        ∙ ground (arith, same_names k j, (named_weights j (entry msg size now) k e).1),
  )

  booked :
      (j : Names)
      → (stream_bytes j (book_frame msg size g)
          ≡ stream_bytes j g + byte_weight j (entry msg size now))
        × (stream_frames j (book_frame msg size g)
            ≡ stream_frames j g + frame_weight j (entry msg size now))
  unfolding book_frame
  booked j = elim (Option-cases (message_names msg)) [
    | inl e ↦ rw e (
      omega (arith, (unnamed_weights j (entry msg size now) e).0),
      omega (arith, (unnamed_weights j (entry msg size now) e).1),
    )
    | inr (k, e) ↦ rw e (book_frame_named k e j)
  ]

  pub book_frame-rest :
      ((book_frame msg size g).entries ≡ g.entries)
      × ((book_frame msg size g).bytes ≡ g.bytes)
      × ((book_frame msg size g).is_closed ≡ g.is_closed)
      × (Distinct g.streams → Distinct (book_frame msg size g).streams)
  unfolding book_frame modify_state
  book_frame-rest = elim (Option-cases (message_names msg)) [
    | inl e ↦ rw e (refl, refl, refl, λ d. d)
    | inr (k, e) ↦ rw e (refl, refl, refl, insert-Distinct k _ g.streams)
  ]

  pub after-entries : (after msg size now g).entries ≡ g.entries ++ (entry msg size now ∷ [])
  unfolding append_entry
  after-entries = ap (λ es. es ++ (entry msg size now ∷ [])) book_frame-rest.0

  pub after-Books : Books (after msg size now g) (after msg size now g).entries
  unfolding append_entry stream_bytes stream_frames entry_size
  after-Books = subst (Books (after msg size now g)) (sym after-entries) (record {
    total = omega (arith, b.total, one_more entry_size, book_frame-rest.1);
    evictables = λ j. omega (arith, (booked j).0, b.evictables j, one_more (byte_weight j));
    frames = λ j. omega (arith, (booked j).1, b.frames j, one_more (frame_weight j));
  })
