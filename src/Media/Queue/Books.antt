-- ===== src/Media/Queue/Books.antt =====
-- live_queue.rs: the byte total and the per-stream sums agree with the entries. The book-keeping
-- functions, without the operations that use them.
use librtmp2_server.Base.{
  ℕ, ◌+◌, ◌-◌, ◌≡◌, ◌≢◌, refl, sym, ◌∙◌, arith, Bool, true, not, none, some, List, [], ◌∷◌, ◌++◌,
  inl, inr, text_eq, pair_eq, ◌==◌, ◌⊎◌, insert, remove, lookup, keep, map_or, view-insert,
  view-insert_at, view-remove, if◌then◌else◌, Bool-cases, Option-cases, ==→eq, ==_refl,
}
use librtmp2_server.Media.Queue.Defs.{Entry, StreamState, Names, Inner, evictable, idle}
use librtmp2_server.Media.Queue.Inner.{
  names, has_names, modify_state, update_state, prune_idle, forget_frame, account_removed,
  purge_hit,
}

unfoldable pub sum_by : (Entry → ℕ) → List Entry → ℕ
sum_by f [] = 0
sum_by f (e ∷ es) = f e + sum_by f es

pub sum_by-append :
    (f : Entry → ℕ) (xs ys : List Entry) → sum_by f (xs ++ ys) ≡ sum_by f xs + sum_by f ys
unfolding sum_by
sum_by-append f [] ys = omega arith
sum_by-append f (x ∷ xs) ys = omega (arith, sum_by-append f xs ys)

pub sum_by-keep :
    (f : Entry → ℕ) (p : Entry → Bool) (es : List Entry)
    → sum_by f (keep p es) + sum_by f (keep (λ e. not (p e)) es) ≡ sum_by f es
unfolding sum_by keep
sum_by-keep f p [] = omega arith
sum_by-keep f p (e ∷ es) = ground (arith, sum_by-keep f p es)

-- What an entry adds to the sums of stream `k`.
unfoldable pub byte_weight : Names → Entry → ℕ
byte_weight k e = if purge_hit k e then e.size else 0

unfoldable pub frame_weight : Names → Entry → ℕ
frame_weight k e = if has_names k e then 1 else 0

unfoldable pub entry_size : Entry → ℕ
entry_size e = e.size

unfoldable pub stream_bytes : Names → Inner → ℕ
stream_bytes k g = map_or (lookup k g.streams) 0 (λ st. st.evictable_bytes)

unfoldable pub stream_frames : Names → Inner → ℕ
stream_frames k g = map_or (lookup k g.streams) 0 (λ st. st.queued_frames)

-- The books of `g` are those of the entries `es`.
pub record Books (g : Inner) (es : List Entry) : Type 0 where
  pub total : g.bytes ≡ sum_by entry_size es
  pub evictables : (k : Names) → stream_bytes k g ≡ sum_by (byte_weight k) es
  pub frames : (k : Names) → stream_frames k g ≡ sum_by (frame_weight k) es

no_frames :
    (k : Names) (es : List Entry) → sum_by (frame_weight k) es ≡ 0 → sum_by (byte_weight k) es ≡ 0
unfolding sum_by frame_weight byte_weight purge_hit
no_frames k [] h = refl
no_frames k (e ∷ es) h = ground (arith, no_frames k es)

-- A write that leaves both sums of a state alone.
abbrev pub Neutral : (StreamState → StreamState) → Type 0
Neutral f =
    (st : StreamState)
    → ((f st).evictable_bytes ≡ st.evictable_bytes) × ((f st).queued_frames ≡ st.queued_frames)

module _ (k j : Names) (f : StreamState → StreamState) (g : Inner) (neutral : Neutral f) where
  stream_bytes-modify : stream_bytes k (modify_state j f g) ≡ stream_bytes k g
  unfolding stream_bytes modify_state
  stream_bytes-modify =
      view-insert (λ (st : StreamState). st.evictable_bytes) 0 k j g.streams _
        ((neutral _).0
          ∙ (elim (Option-cases (lookup j g.streams)) [ inl e ↦ rw e | inr (st, e) ↦ rw e ]))

  stream_frames-modify : stream_frames k (modify_state j f g) ≡ stream_frames k g
  unfolding stream_frames modify_state
  stream_frames-modify =
      view-insert (λ (st : StreamState). st.queued_frames) 0 k j g.streams _
        ((neutral _).1
          ∙ (elim (Option-cases (lookup j g.streams)) [ inl e ↦ rw e | inr (st, e) ↦ rw e ]))

modify_state-bytes :
    (j : Names) (f : StreamState → StreamState) (g : Inner) → (modify_state j f g).bytes ≡ g.bytes
unfolding modify_state
modify_state-bytes j f g = refl

-- Such a write keeps the books, also where it makes a new state.
pub modify_state-Books :
    (j : Names) (f : StreamState → StreamState) (g : Inner) (es : List Entry)
    → Neutral f
    → Books g es
    → Books (modify_state j f g) es
modify_state-Books j f g es neutral b = record {
  total = modify_state-bytes j f g ∙ b.total;
  evictables = λ k. stream_bytes-modify k j f g neutral ∙ b.evictables k;
  frames = λ k. stream_frames-modify k j f g neutral ∙ b.frames k;
}

-- `update_state` on a state that is there is `modify_state`.
update_state-cases :
    (j : Names) (f : StreamState → StreamState) (g : Inner)
    → (update_state j f g ≡ g) ⊎ (update_state j f g ≡ modify_state j f g)
unfolding update_state modify_state
update_state-cases j f g = elim (Option-cases (lookup j g.streams)) [
  | inl e ↦ inl (rw e)
  | inr (st, e) ↦ inr (rw e)
]

pub update_state-Books :
    (j : Names) (f : StreamState → StreamState) (g : Inner) (es : List Entry)
    → Neutral f
    → Books g es
    → Books (update_state j f g) es
update_state-Books j f g es neutral b = elim (update_state-cases j f g) [
  | inl e ↦ rw e b
  | inr e ↦ rw e (modify_state-Books j f g es neutral b)
]

idle_frames : (st : StreamState) → idle st ≡ true → st.queued_frames ≡ 0
unfolding idle
idle_frames st h = ground arith

-- To remove the state of a stream that has no frames keeps the books.
remove-Books :
    (j : Names) (g : Inner) (es : List Entry)
    → stream_frames j g ≡ 0
    → Books g es
    → Books (record g { streams = remove j g.streams }) es
unfolding stream_bytes stream_frames
remove-Books j g es z b = record {
  total = b.total;
  evictables = λ k.
      view-remove (λ (st : StreamState). st.evictable_bytes) 0 k j g.streams
        (b.evictables j ∙ no_frames j es (sym (b.frames j) ∙ z))
      ∙ b.evictables k;
  frames = λ k. view-remove (λ (st : StreamState). st.queued_frames) 0 k j g.streams z ∙ b.frames k;
}

-- An idle state is worth nothing, so to prune it keeps the books.
pub prune_idle-Books :
    (j : Names) (g : Inner) (es : List Entry) → Books g es → Books (prune_idle j g) es
unfolding prune_idle
prune_idle-Books j g es b = elim (Option-cases (lookup j g.streams)) [
  | inl e ↦ rw e b
  | inr (st, e) ↦ rw e (elim (Bool-cases (idle st)) [
    | inl i ↦ rw i (remove-Books j g es (unfold stream_frames in rw e (idle_frames st i)) b)
    | inr i ↦ rw i b
  ])
]

-- The weights of an entry, by its names.
module _ (k : Names) (e : Entry) where
  pub unnamed_weights : names e ≡ none → (byte_weight k e ≡ 0) × (frame_weight k e ≡ 0)
  unfolding byte_weight frame_weight purge_hit has_names
  unnamed_weights h = (ground arith, ground arith)

  pub named_weights :
      (j : Names)
      → names e ≡ some j
      → (byte_weight k e ≡ (if j == k then (if evictable e.kind then e.size else 0) else 0))
        × (frame_weight k e ≡ (if j == k then 1 else 0))
  unfolding byte_weight frame_weight purge_hit has_names
  named_weights j h = (ground arith, ground arith)

named_frames : (j : Names) (e : Entry) → names e ≡ some j → frame_weight j e ≡ 1
named_frames j e h = (named_weights j e j h).1 ∙ rw (==_refl j)

pub same_names : (j k : Names) → (j == k) ≡ true → j ≡ k
same_names j k = ==→eq j k

-- The entry `e`, of stream `j`, is taken off the stream's state and the byte total.
module _ (e : Entry) (g : Inner) (es : List Entry) (b : Books g (e ∷ es)) where
  less : Inner
  less = record g { bytes = g.bytes - e.size }

  less_total : less.bytes ≡ sum_by entry_size es
  unfolding less sum_by entry_size
  less_total = omega (arith, b.total)

  unnamed-Books : names e ≡ none → Books less es
  unfolding sum_by less stream_bytes stream_frames
  unnamed-Books h = record {
    total = less_total;
    evictables = λ k. omega (arith, b.evictables k, (unnamed_weights k e h).0);
    frames = λ k. omega (arith, b.frames k, (unnamed_weights k e h).1);
  }

  named-Books :
      (j : Names) (st : StreamState)
      → names e ≡ some j
      → lookup j g.streams ≡ some st
      → Books (record less { streams = insert j (forget_frame e st) g.streams }) es
  unfolding sum_by less stream_bytes stream_frames forget_frame
  named-Books j st h found = record {
    total = less_total;
    evictables = λ k.
        view-insert_at (λ (st : StreamState). st.evictable_bytes) 0 k j g.streams
          (forget_frame e st)
        ∙ ground (arith, b.evictables k, (named_weights k e j h).0, found, same_names j k);
    frames = λ k.
        view-insert_at (λ (st : StreamState). st.queued_frames) 0 k j g.streams (forget_frame e st)
        ∙ ground (arith, b.frames k, (named_weights k e j h).1, found, same_names j k);
  }

  state_present : (j : Names) → names e ≡ some j → lookup j g.streams ≢ none
  unfolding sum_by stream_frames
  state_present j h absent = absurd (ground (arith, b.frames j, named_frames j e h, absent))

pub account_removed-Books :
    (e : Entry) (g : Inner) (es : List Entry) → Books g (e ∷ es) → Books (account_removed e g) es
unfolding account_removed update_state less
account_removed-Books e g es b = elim (Option-cases (names e)) [
  | inl h ↦ rw h (unnamed-Books e g es b h)
  | inr (j, h) ↦ rw h (
      prune_idle-Books j _ es (elim (Option-cases (lookup j g.streams)) [
        | inl absent ↦ absurd (state_present e g es b j h absent)
        | inr (st, found) ↦ rw found (named-Books e g es b j st h found)
      ]))
]
