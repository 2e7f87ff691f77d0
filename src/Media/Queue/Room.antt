-- ===== src/Media/Queue/Room.antt =====
-- live_queue.rs, `make_room`: the eviction loop ends, because the books are right, and what it
-- keeps.
use librtmp2_server.Base.{
  ℕ, zero, suc, ◌+◌, ◌<◌, ◌≡◌, ◌≢◌, refl, sym, ap, ◌∙◌, subst, arith, Bool, true, false, not, ◌&&◌,
  ◌||◌, ◌⊎◌, Option, none, some, List, [], ◌∷◌, inl, inr, Map, lookup, lookup-head, lookup-tail,
  Distinct, pair_eq, text_eq, some_inj, insert-Distinct, keep, length, length-keep-le, map_or,
  nat_eqb, ltb, Bool-cases, Option-cases,
}
use librtmp2_server.Media.Queue.Defs.{
  LiveQueueConfig, LiveQueueStats, Entry, StreamState, Names, Inner, Reason, pressure, is_critical,
  count_drop,
}
use librtmp2_server.Media.Queue.Inner.{
  names, modify_state, purge_hit, purge_stream, start_waiting, flag_reinit, heavier, names_ltb,
  heaviest_from, heaviest_evictable, take_first, fits, evict_critical, make_room,
}
use librtmp2_server.Media.Queue.Books.{
  sum_by, byte_weight, frame_weight, entry_size, stream_bytes, stream_frames, Books,
  modify_state-Books, account_removed-Books,
}
use librtmp2_server.Media.Queue.Keeps.{
  is_control, Keeps, Keeps-refl, Keeps-trans, SameBut, SameBut-refl, SameBut-trans,
  account_removed-SameBut, start_waiting-Neutral, flag_reinit-Neutral, modify_state-Keeps,
  count_drop-Tally, count_drop-total,
}
use librtmp2_server.Media.Queue.Purges.{purge_stream-Keeps, purge_stream-entries}

-- One round of the search keeps the best so far or takes the state at hand, which holds bytes.
heavier-cases :
    (k : Names) (st : StreamState) (best : Option (ℕ × Names))
    → (heavier (k, st) best ≡ best)
      ⊎ ((heavier (k, st) best ≡ some (st.evictable_bytes, k)) × (st.evictable_bytes ≢ 0))
unfolding heavier
heavier-cases k st none = ground arith
heavier-cases k st (some b) =
    elim (Bool-cases
      (ltb b.0 st.evictable_bytes || (nat_eqb st.evictable_bytes b.0 && names_ltb k b.1))) [
        | inl e ↦ rw e (ground arith)
        | inr e ↦ rw e (ground arith)
      ]

-- The stream that the search ends with was the best before, or its state in the map holds bytes.
heaviest_from-cases :
    (m : Map Names StreamState) (best : Option (ℕ × Names)) (b : ℕ × Names)
    → Distinct m
    → heaviest_from best m ≡ some b
    → (best ≡ some b) ⊎ ((st : StreamState) × (lookup b.1 m ≡ some st) × (st.evictable_bytes ≢ 0))
unfolding heaviest_from
heaviest_from-cases [] best b d h = inl h
heaviest_from-cases ((k, st) ∷ m) best b d h =
    elim (heaviest_from-cases m (heavier (k, st) best) b d.1 h) [
      | inl e ↦ elim (heavier-cases k st best) [
        | inl same ↦ inl (sym same ∙ e)
        | inr (new, pos) ↦
            inr (st, rw (← ap (λ o. map_or o k (λ x. x.1)) (sym new ∙ e)) (lookup-head k st m), pos)
      ]
      | inr (st', found, pos) ↦ inr (st', lookup-tail k st m b.1 st' d.0 found, pos)
    ]

heaviest-holds-bytes :
    (g : Inner) (k : Names)
    → Distinct g.streams
    → heaviest_evictable g ≡ some k
    → stream_bytes k g ≢ 0
unfolding heaviest_evictable stream_bytes
heaviest-holds-bytes g k d h = elim (Option-cases (heaviest_from none g.streams)) [
  | inl e ↦ absurd (ground arith)
  | inr (b, e) ↦ elim (heaviest_from-cases g.streams none b d e) [
    | inl no_best ↦ cc
    | inr (st, found, pos) ↦ ground (arith, ap (λ o. map_or o k (λ (x : ℕ × Names). x.1)) e)
  ]
]

-- A stream that holds bytes has an entry that its purge removes.
purge-removes :
    (k : Names) (es : List Entry)
    → sum_by (byte_weight k) es ≢ 0
    → length (keep (λ e. not (purge_hit k e)) es) < length es
unfolding sum_by keep byte_weight
purge-removes k [] h = absurd (h refl)
purge-removes k (e ∷ es) h = elim (Bool-cases (purge_hit k e)) [
  | inl hit ↦ ground (arith, length-keep-le (λ x. not (purge_hit k x)) es)
  | inr miss ↦ ground (arith, purge-removes k es)
]

-- `take_first` takes one entry that passes the test, and nothing else.
record Taken (p : Entry → Bool) (e : Entry) (rest es : List Entry) : Type 0 where
  passes : p e ≡ true
  sums : (f : Entry → ℕ) → f e + sum_by f rest ≡ sum_by f es
  one_less : suc (length rest) ≡ length es
  spares : (c : Entry → Bool) → c e ≡ false → keep c rest ≡ keep c es

Taken-later :
    (p : Entry → Bool) (x e : Entry) (rest es : List Entry)
    → Taken p e rest es
    → Taken p e (x ∷ rest) (x ∷ es)
unfolding sum_by keep
Taken-later p x e rest es t = record {
  passes = t.passes;
  sums = λ f. omega (arith, t.sums f);
  one_less = ap suc t.one_less;
  spares = λ c h. ground (arith, t.spares c h);
}

Taken-first : (p : Entry → Bool) (x : Entry) (xs : List Entry) → p x ≡ true → Taken p x xs (x ∷ xs)
unfolding sum_by keep
Taken-first p x xs h = record {
  passes = h;
  sums = λ f. refl;
  one_less = refl;
  spares = λ c miss. rw miss;
}

take_first-Taken :
    (p : Entry → Bool) (es : List Entry) (r : Entry × List Entry)
    → take_first p es ≡ some r
    → Taken p r.0 r.1 es
unfolding take_first
take_first-Taken p [] r h = absurd (ground arith)
take_first-Taken p (x ∷ xs) r h = elim (Bool-cases (p x)) [
  | inl here ↦
      subst (λ (t : Entry × List Entry). Taken p t.0 t.1 (x ∷ xs)) (some_inj (rw here at h))
        (Taken-first p x xs here)
  | inr later ↦ elim (Option-cases (take_first p xs)) [
    | inl e ↦ absurd (ground arith)
    | inr (t, e) ↦
        subst (λ (t : Entry × List Entry). Taken p t.0 t.1 (x ∷ xs)) (some_inj (rw (later, e) at h))
          (Taken-later p x t.0 t.1 xs (take_first-Taken p xs t e))
  ]
]

critical_not_control : (e : Entry) → is_critical e.kind ≡ true → is_control e ≡ false
unfolding is_critical is_control
critical_not_control e h = ground arith

-- The bookkeeping of `evict_critical` before the entry is accounted for.
flagged : Entry → List Entry → Inner → Inner
flagged e rest g =
    map_or (names e) (record g { entries = rest })
      (λ k. record (modify_state k flag_reinit (record g { entries = rest })) {
        reinit_dirty = true;
      })

flagged-SameBut :
    (e : Entry) (rest : List Entry) (g : Inner)
    → SameBut (record g { entries = rest }) (flagged e rest g)
unfolding flagged modify_state
flagged-SameBut e rest g = elim (Option-cases (names e)) [
  | inl h ↦ rw h (SameBut-refl _)
  | inr (k, h) ↦ rw h (record {
    same_entries = refl;
    same_closed = refl;
    same_bytes = omega arith;
    still_distinct = insert-Distinct k _ g.streams;
  })
]

flagged-Books :
    (e : Entry) (rest es : List Entry) (g : Inner)
    → Books (record g { entries = rest }) es
    → Books (flagged e rest g) es
unfolding flagged
flagged-Books e rest es g b = elim (Option-cases (names e)) [
  | inl h ↦ rw h b
  | inr (k, h) ↦ rw h (
      let c =
        modify_state-Books k flag_reinit (record g { entries = rest }) es flag_reinit-Neutral b in
      unfold stream_bytes stream_frames in
      record { total = c.total; evictables = c.evictables; frames = c.frames })
]

evict_critical-SameBut :
    (e : Entry) (rest : List Entry) (g : Inner)
    → SameBut (record g { entries = rest }) (evict_critical e rest g)
unfolding evict_critical flagged
evict_critical-SameBut e rest g =
    SameBut-trans (flagged-SameBut e rest g) (account_removed-SameBut e (flagged e rest g))

evict_critical-Keeps :
    (e : Entry) (rest : List Entry) (g : Inner) (s : LiveQueueStats) (r : Reason)
    → Taken (λ (x : Entry). is_critical x.kind) e rest g.entries
    → Keeps g s (evict_critical e rest g) (count_drop s e.kind r)
unfolding evict_critical flagged stream_bytes stream_frames sum_by
evict_critical-Keeps e rest g s r t = record {
  books = λ b. subst (Books _) (sym same.same_entries) (
      account_removed-Books e (flagged e rest g) rest (
        flagged-Books e rest (e ∷ rest) g (record {
          total = b.total ∙ sym (t.sums entry_size);
          evictables = λ k. b.evictables k ∙ sym (t.sums (byte_weight k));
          frames = λ k. b.frames k ∙ sym (t.sums (frame_weight k));
        })));
  distinct = same.still_distinct;
  tally = count_drop-Tally s e.kind r;
  balanced = omega (
    arith,
    t.one_less,
    count_drop-total s e.kind r,
    ap (λ (es : List Entry). length es) same.same_entries,
  );
  controls =
      ap (keep is_control) same.same_entries
      ∙ t.spares is_control (critical_not_control e t.passes);
  shorter = omega (arith, t.one_less, ap (λ (es : List Entry). length es) same.same_entries);
  lighter = same.same_bytes;
  closed_same = same.same_closed;
}
  where
    same : SameBut (record g { entries = rest }) (evict_critical e rest g)
    same = evict_critical-SameBut e rest g

-- What a round of the loop that goes on does: it keeps everything, and the queue gets shorter.
record Round (g : Inner) (s : LiveQueueStats) (g' : Inner) (s' : LiveQueueStats) : Type 0 where
  keeps : Keeps g s g' s'
  progress : length g'.entries < length g.entries

purge-Round :
    (k : Names) (now : ℕ) (g : Inner) (s : LiveQueueStats)
    → Books g g.entries
    → Distinct g.streams
    → heaviest_evictable g ≡ some k
    → Round g s
        (modify_state k (start_waiting now) (purge_stream k pressure g s).0)
        (purge_stream k pressure g s).1
purge-Round k now g s b d h = record {
  keeps =
      Keeps-trans (purge_stream-Keeps k pressure g s)
        (modify_state-Keeps k p.0 p.1 (start_waiting now) (start_waiting-Neutral now));
  progress =
      unfold modify_state in
      omega (
        arith,
        ap (λ (es : List Entry). length es) (purge_stream-entries k pressure g s),
        purge-removes k g.entries (λ z. heaviest-holds-bytes g k d h (b.evictables k ∙ z)),
      );
}
  where
    p : Inner × LiveQueueStats
    p = purge_stream k pressure g s

-- What `make_room` answers: a state that keeps everything, with room if it says so.
pub record Answer (size : ℕ) (cfg : LiveQueueConfig) (g : Inner) (s : LiveQueueStats)
    (r : Bool × Inner × LiveQueueStats) : Type 0 where
  pub keeps : Keeps g s r.1 r.2
  pub room : r.0 ≡ true → fits size cfg r.1 ≡ true

critical-Round :
    (g : Inner) (s : LiveQueueStats) (t : Entry × List Entry)
    → take_first (λ (e : Entry). is_critical e.kind) g.entries ≡ some t
    → Round g s (evict_critical t.0 t.1 g) (count_drop s t.0.kind pressure)
critical-Round g s t h = record {
  keeps = evict_critical-Keeps t.0 t.1 g s pressure taken;
  progress = omega (
    arith,
    taken.one_less,
    ap (λ (es : List Entry). length es) (evict_critical-SameBut t.0 t.1 g).same_entries,
  );
}
  where
    taken : Taken (λ (x : Entry). is_critical x.kind) t.0 t.1 g.entries
    taken = take_first-Taken _ g.entries t h

-- The rounds after a round.
go_on :
    (fuel size now : ℕ) (cfg : LiveQueueConfig) (g : Inner) (s : LiveQueueStats) (g' : Inner)
    (s' : LiveQueueStats)
    → Books g g.entries
    → Distinct g.streams
    → length g.entries < suc fuel
    → Round g s g' s'
    → (Books g' g'.entries
        → Distinct g'.streams
        → length g'.entries < fuel
        → (r : Bool × Inner × LiveQueueStats) × (make_room fuel size now cfg g' s' ≡ some r)
          × Answer size cfg g' s' r)
    → (r : Bool × Inner × LiveQueueStats) × (make_room fuel size now cfg g' s' ≡ some r)
      × Answer size cfg g s r
go_on fuel size now cfg g s g' s' b d h round next =
    let (r, runs, answer) =
      next (round.keeps.books b) (round.keeps.distinct d) (omega (arith, round.progress)) in
    (r, runs, record { keeps = Keeps-trans round.keeps answer.keeps; room = answer.room })

pub make_room_total :
    (fuel size now : ℕ) (cfg : LiveQueueConfig) (g : Inner) (s : LiveQueueStats)
    → Books g g.entries
    → Distinct g.streams
    → length g.entries < fuel
    → (r : Bool × Inner × LiveQueueStats) × (make_room fuel size now cfg g s ≡ some r)
      × Answer size cfg g s r
unfolding make_room
make_room_total zero size now cfg g s b d h = absurd (omega arith)
make_room_total (suc fuel) size now cfg g s b d h = elim (Bool-cases (fits size cfg g)) [
  | inl room ↦ ((true, g, s), rw room, record { keeps = Keeps-refl g s; room = λ _. room })
  | inr tight ↦ rw tight (elim (Option-cases (heaviest_evictable g)) [
    | inr (k, heavy) ↦ rw heavy (
        go_on fuel size now cfg g s _ _ b d h (purge-Round k now g s b d heavy)
          (make_room_total fuel size now cfg _ _))
    | inl light ↦
        rw light (elim (Option-cases (take_first (λ (e : Entry). is_critical e.kind) g.entries)) [
          | inl only_control ↦ (
            (false, g, s),
            rw only_control,
            record { keeps = Keeps-refl g s; room = λ never. cc },
          )
          | inr (t, first) ↦ rw first (
              go_on fuel size now cfg g s _ _ b d h (critical-Round g s t first)
                (make_room_total fuel size now cfg _ _))
        ])
  ])
]
