-- ===== src/Media/Queue/Keeps.antt =====
-- live_queue.rs: what every operation under the lock keeps. `Keeps` is a preorder on states, so a
-- method's proof composes those of its steps.
use librtmp2_server.Base.{
  ℕ, ◌+◌, ◌-◌, ◌%◌, ◌≤◌, ◌≡◌, refl, sym, ap, ◌∙◌, arith, Bool, true, false, List, inl, inr, Map,
  lookup, Distinct, insert-Distinct, remove-Distinct, pair_eq, text_eq, subst, keep, length,
  Bool-cases, Option-cases, u64_mod,
}
use librtmp2_server.Media.Queue.Defs.{
  LiveQueueStats, Kind, control, media, Entry, StreamState, Names, Inner, Reason, count_drop, idle,
}
use librtmp2_server.Media.Queue.Inner.{
  names, modify_state, update_state, prune_idle, account_removed, forget_frame, start_waiting,
  stop_waiting, flag_reinit,
}
use librtmp2_server.Media.Queue.Books.{
  Books, Neutral, modify_state-Books, update_state-Books, prune_idle-Books,
}

-- Every drop is counted in one category.
pub record Tally (s : LiveQueueStats) : Type 0 where
  pub tallied :
      s.dropped_total
      ≡ (s.oversized_dropped + s.dropped_critical + s.dropped_stale + s.dropped_droppable) % u64_mod

-- The queued messages and the counted drops together.
abbrev pub balance : Inner → LiveQueueStats → ℕ
balance g s = (length g.entries + s.dropped_total) % u64_mod

unfoldable pub is_control : Entry → Bool
is_control e = elim e.kind [ control ↦ true | media h ↦ false ]

pub record Keeps (g : Inner) (s : LiveQueueStats) (g' : Inner) (s' : LiveQueueStats) : Type 0 where
  pub books : Books g g.entries → Books g' g'.entries
  pub distinct : Distinct g.streams → Distinct g'.streams
  pub tally : Tally s → Tally s'
  pub balanced : balance g' s' ≡ balance g s
  pub controls : keep is_control g'.entries ≡ keep is_control g.entries
  pub shorter : length g'.entries ≤ length g.entries
  pub lighter : g'.bytes ≤ g.bytes
  pub closed_same : g'.is_closed ≡ g.is_closed

pub Keeps-refl : (g : Inner) (s : LiveQueueStats) → Keeps g s g s
Keeps-refl g s = record {
  books = λ b. b;
  distinct = λ d. d;
  tally = λ t. t;
  balanced = refl;
  controls = refl;
  shorter = omega arith;
  lighter = omega arith;
  closed_same = refl;
}

pub Keeps-trans :
    {g g' g'' : Inner} {s s' s'' : LiveQueueStats}
    → Keeps g s g' s'
    → Keeps g' s' g'' s''
    → Keeps g s g'' s''
Keeps-trans p q = record {
  books = λ b. q.books (p.books b);
  distinct = λ d. q.distinct (p.distinct d);
  tally = λ t. q.tally (p.tally t);
  balanced = q.balanced ∙ p.balanced;
  controls = q.controls ∙ p.controls;
  shorter = omega (arith, p.shorter, q.shorter);
  lighter = omega (arith, p.lighter, q.lighter);
  closed_same = q.closed_same ∙ p.closed_same;
}

-- What `g'` shares with `g`, beside the map of the streams.
pub record SameBut (g g' : Inner) : Type 0 where
  pub same_entries : g'.entries ≡ g.entries
  pub same_closed : g'.is_closed ≡ g.is_closed
  pub same_bytes : g'.bytes ≤ g.bytes
  pub still_distinct : Distinct g.streams → Distinct g'.streams

-- A step that sets the map of the streams and lowers the byte total.
pub SameBut-refl : (g : Inner) → SameBut g g
SameBut-refl g = record {
  same_entries = refl;
  same_closed = refl;
  same_bytes = omega arith;
  still_distinct = λ d. d;
}

lighter-SameBut : (g : Inner) (n : ℕ) → n ≤ g.bytes → SameBut g (record g { bytes = n })
lighter-SameBut g n h = record {
  same_entries = refl;
  same_closed = refl;
  same_bytes = h;
  still_distinct = λ d. d;
}

pub streams-SameBut :
    (g : Inner) (n : ℕ) (m : Map Names StreamState)
    → n ≤ g.bytes
    → (Distinct g.streams → Distinct m)
    → SameBut g (record g { bytes = n; streams = m })
streams-SameBut g n m h d = record {
  same_entries = refl;
  same_closed = refl;
  same_bytes = h;
  still_distinct = d;
}

pub update_state-SameBut :
    (k : Names) (f : StreamState → StreamState) (g : Inner) → SameBut g (update_state k f g)
unfolding update_state
update_state-SameBut k f g = elim (Option-cases (lookup k g.streams)) [
  | inl e ↦ rw e (SameBut-refl g)
  | inr (st, e) ↦
      rw e (streams-SameBut g g.bytes _ (omega arith) (insert-Distinct k (f st) g.streams))
]

pub prune_idle-SameBut : (k : Names) (g : Inner) → SameBut g (prune_idle k g)
unfolding prune_idle
prune_idle-SameBut k g = elim (Option-cases (lookup k g.streams)) [
  | inl e ↦ rw e (SameBut-refl g)
  | inr (st, e) ↦ rw e (elim (Bool-cases (idle st)) [
    | inl i ↦ rw i (streams-SameBut g g.bytes _ (omega arith) (remove-Distinct k g.streams))
    | inr i ↦ rw i (SameBut-refl g)
  ])
]

pub SameBut-trans : {g g' g'' : Inner} → SameBut g g' → SameBut g' g'' → SameBut g g''
SameBut-trans p q = record {
  same_entries = q.same_entries ∙ p.same_entries;
  same_closed = q.same_closed ∙ p.same_closed;
  same_bytes = omega (arith, p.same_bytes, q.same_bytes);
  still_distinct = λ d. q.still_distinct (p.still_distinct d);
}

-- A step on the streams alone keeps everything, if it keeps the books.
pub SameBut-Keeps :
    {g g' : Inner} (s : LiveQueueStats)
    → SameBut g g'
    → (Books g g.entries → Books g' g.entries)
    → Keeps g s g' s
SameBut-Keeps s p books = record {
  distinct = p.still_distinct;
  books = λ b. subst (Books _) (sym p.same_entries) (books b);
  tally = λ t. t;
  balanced = ap (λ es. (length es + s.dropped_total) % u64_mod) p.same_entries;
  controls = ap (keep is_control) p.same_entries;
  shorter = omega (arith, ap (λ (es : List Entry). length es) p.same_entries);
  lighter = p.same_bytes;
  closed_same = p.same_closed;
}

pub account_removed-SameBut : (e : Entry) (g : Inner) → SameBut g (account_removed e g)
unfolding account_removed
account_removed-SameBut e g = elim (Option-cases (names e)) [
  | inl h ↦ rw h (lighter-SameBut g (g.bytes - e.size) (omega arith))
  | inr (k, h) ↦ rw h (
      SameBut-trans
        (SameBut-trans (lighter-SameBut g (g.bytes - e.size) (omega arith))
          (update_state-SameBut k (forget_frame e) (record g { bytes = g.bytes - e.size })))
        (prune_idle-SameBut k _))
]

pub start_waiting-Neutral : (now : ℕ) → Neutral (start_waiting now)
unfolding start_waiting
start_waiting-Neutral now st = (refl, refl)

pub stop_waiting-Neutral : Neutral stop_waiting
unfolding stop_waiting
stop_waiting-Neutral st = (refl, refl)

pub flag_reinit-Neutral : Neutral flag_reinit
unfolding flag_reinit
flag_reinit-Neutral st = (refl, refl)

module _ (k : Names) (g : Inner) (s : LiveQueueStats) where
  pub modify_state-Keeps :
      (f : StreamState → StreamState) → Neutral f → Keeps g s (modify_state k f g) s
  modify_state-Keeps f n =
      SameBut-Keeps s
        (unfold modify_state in
          streams-SameBut g g.bytes _ (omega arith) (insert-Distinct k _ g.streams))
        (modify_state-Books k f g g.entries n)

  pub update_state-Keeps :
      (f : StreamState → StreamState) → Neutral f → Keeps g s (update_state k f g) s
  update_state-Keeps f n =
      SameBut-Keeps s (update_state-SameBut k f g) (update_state-Books k f g g.entries n)

  pub prune_idle-Keeps : Keeps g s (prune_idle k g) s
  prune_idle-Keeps = SameBut-Keeps s (prune_idle-SameBut k g) (prune_idle-Books k g g.entries)

pub count_drop-Tally :
    (s : LiveQueueStats) (kind : Kind) (reason : Reason)
    → Tally s
    → Tally (count_drop s kind reason)
unfolding count_drop
count_drop-Tally s kind reason t = ground arith

pub count_drop-total :
    (s : LiveQueueStats) (kind : Kind) (reason : Reason)
    → (count_drop s kind reason).dropped_total ≡ (s.dropped_total + 1) % u64_mod
unfolding count_drop
count_drop-total s kind reason = ground arith
