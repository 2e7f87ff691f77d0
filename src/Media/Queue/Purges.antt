-- ===== src/Media/Queue/Purges.antt =====
-- live_queue.rs: `purge_stream`, `purge_stale_stream`, the age rule and the expired waits keep the
-- books, the tally and the control messages.
use librtmp2_server.Base.{
  ℕ, suc, ◌+◌, ◌%◌, ◌≡◌, refl, sym, ap, ◌∙◌, arith, Bool, true, false, not, Option, List, [], ◌∷◌,
  ◌++◌, inl, inr, Map, pair_eq, text_eq, keep, keep-keep, length, Bool-cases, u64_mod,
}
use librtmp2_server.Media.Queue.Defs.{
  LiveQueueConfig, LiveQueueStats, Entry, StreamState, Names, Inner, Reason, stale, evictable,
  count_drop,
}
use librtmp2_server.Media.Queue.Inner.{
  account_removed, account_all, purge_hit, purge_stream, position, is_fresh_resync, keep_at,
  stale_hit, purge_stale_stream, start_waiting, stop_waiting, settle_aged, count_resync, age_out,
  age_out_all, stale_names, head_old, enforce_age, wait_expired, release_all, release_expired_waits,
}
use librtmp2_server.Media.Queue.Books.{
  sum_by, sum_by-append, sum_by-keep, byte_weight, frame_weight, entry_size, stream_bytes,
  stream_frames, Books, account_removed-Books,
}
use librtmp2_server.Media.Queue.Keeps.{
  Tally, is_control, Keeps, Keeps-refl, Keeps-trans, SameBut, SameBut-refl, SameBut-trans,
  account_removed-SameBut, start_waiting-Neutral, stop_waiting-Neutral, modify_state-Keeps,
  update_state-Keeps, prune_idle-Keeps, count_drop-Tally, count_drop-total,
}

account_all-Books :
    (r : Reason) (es rest : List Entry) (g : Inner) (s : LiveQueueStats)
    → Books g (es ++ rest)
    → Books (account_all r es g s).0 rest
unfolding account_all
account_all-Books r [] rest g s b = b
account_all-Books r (e ∷ es) rest g s b =
    account_all-Books r es rest (account_removed e g) (count_drop s e.kind r)
      (account_removed-Books e g (es ++ rest) b)

account_all-SameBut :
    (r : Reason) (es : List Entry) (g : Inner) (s : LiveQueueStats)
    → SameBut g (account_all r es g s).0
unfolding account_all
account_all-SameBut r [] g s = SameBut-refl g
account_all-SameBut r (e ∷ es) g s =
    SameBut-trans (account_removed-SameBut e g)
      (account_all-SameBut r es (account_removed e g) (count_drop s e.kind r))

account_all-Tally :
    (r : Reason) (es : List Entry) (g : Inner) (s : LiveQueueStats)
    → Tally s
    → Tally (account_all r es g s).1
unfolding account_all
account_all-Tally r [] g s t = t
account_all-Tally r (e ∷ es) g s t =
    account_all-Tally r es (account_removed e g) (count_drop s e.kind r)
      (count_drop-Tally s e.kind r t)

account_all-total :
    (r : Reason) (es : List Entry) (g : Inner) (s : LiveQueueStats)
    → (account_all r es g s).1.dropped_total % u64_mod ≡ (s.dropped_total + length es) % u64_mod
unfolding account_all
account_all-total r [] g s = omega arith
account_all-total r (e ∷ es) g s = omega (
  arith,
  account_all-total r es (account_removed e g) (count_drop s e.kind r),
  count_drop-total s e.kind r,
)

-- Two lists that share out the entries of a third.
record Shares (removed kept es : List Entry) : Type 0 where
  sums : (f : Entry → ℕ) → sum_by f removed + sum_by f kept ≡ sum_by f es
  lengths : length removed + length kept ≡ length es
  same_controls : keep is_control kept ≡ keep is_control es

cut-Keeps :
    (r : Reason) (removed kept : List Entry) (g : Inner) (s : LiveQueueStats)
    → Shares removed kept g.entries
    → Keeps g s
        (account_all r removed (record g { entries = kept }) s).0
        (account_all r removed (record g { entries = kept }) s).1
unfolding stream_bytes stream_frames
cut-Keeps r removed kept g s h = record {
  books = λ b. rw same.same_entries (
      account_all-Books r removed kept g0 s (record {
        total = b.total ∙ sym (h.sums entry_size) ∙ sym (sum_by-append entry_size removed kept);
        evictables = λ k.
            b.evictables k
            ∙ sym (h.sums (byte_weight k))
            ∙ sym (sum_by-append (byte_weight k) removed kept);
        frames = λ k.
            b.frames k
            ∙ sym (h.sums (frame_weight k))
            ∙ sym (sum_by-append (frame_weight k) removed kept);
      }));
  distinct = same.still_distinct;
  tally = account_all-Tally r removed g0 s;
  balanced = omega (
    arith,
    account_all-total r removed g0 s,
    h.lengths,
    ap (λ (es : List Entry). length es) same.same_entries,
  );
  controls = ap (keep is_control) same.same_entries ∙ h.same_controls;
  shorter = omega (arith, h.lengths, ap (λ (es : List Entry). length es) same.same_entries);
  lighter = same.same_bytes;
  closed_same = same.same_closed;
}
  where
    g0 : Inner
    g0 = record g { entries = kept }

    same : SameBut g0 (account_all r removed g0 s).0
    same = account_all-SameBut r removed g0 s

control_not_evictable : (e : Entry) → is_control e ≡ true → evictable e.kind ≡ false
unfolding is_control evictable
control_not_evictable e h = ground arith

purge_hit_spares : (k : Names) (e : Entry) → is_control e ≡ true → not (purge_hit k e) ≡ true
unfolding purge_hit
purge_hit_spares k e h = ground (arith, control_not_evictable e)

keep-lengths :
    (p : Entry → Bool) (es : List Entry)
    → length (keep p es) + length (keep (λ e. not (p e)) es) ≡ length es
unfolding keep
keep-lengths p [] = omega arith
keep-lengths p (e ∷ es) = ground (arith, keep-lengths p es)

pub purge_stream-Keeps :
    (k : Names) (r : Reason) (g : Inner) (s : LiveQueueStats)
    → Keeps g s (purge_stream k r g s).0 (purge_stream k r g s).1
unfolding purge_stream
purge_stream-Keeps k r g s = cut-Keeps r _ _ g s (record {
  sums = λ f. sum_by-keep f (purge_hit k) g.entries;
  lengths = keep-lengths (purge_hit k) g.entries;
  same_controls = keep-keep is_control (λ e. not (purge_hit k e)) g.entries (purge_hit_spares k);
})

pub purge_stream-entries :
    (k : Names) (r : Reason) (g : Inner) (s : LiveQueueStats)
    → (purge_stream k r g s).0.entries ≡ keep (λ e. not (purge_hit k e)) g.entries
unfolding purge_stream
purge_stream-entries k r g s =
    (account_all-SameBut r (keep (purge_hit k) g.entries) _ s).same_entries

-- The same by index.
module _ (p : ℕ → Entry → Bool) where
  keep_at-sums :
      (f : Entry → ℕ) (i : ℕ) (es : List Entry)
      → sum_by f (keep_at p i es) + sum_by f (keep_at (λ j e. not (p j e)) i es) ≡ sum_by f es
  unfolding sum_by keep_at
  keep_at-sums f i [] = omega arith
  keep_at-sums f i (e ∷ es) = ground (arith, keep_at-sums f (suc i) es)

  keep_at-lengths :
      (i : ℕ) (es : List Entry)
      → length (keep_at p i es) + length (keep_at (λ j e. not (p j e)) i es) ≡ length es
  unfolding keep_at
  keep_at-lengths i [] = omega arith
  keep_at-lengths i (e ∷ es) = ground (arith, keep_at-lengths (suc i) es)

  pub keep_at_spares :
      (c : Entry → Bool)
      → ((i : ℕ) (e : Entry) → c e ≡ true → p i e ≡ false)
      → (i : ℕ) (es : List Entry) → keep c (keep_at (λ j e. not (p j e)) i es) ≡ keep c es
  unfolding keep keep_at
  keep_at_spares c h i [] = refl
  keep_at_spares c h i (e ∷ es) = ground (arith, h i e, keep_at_spares c h (suc i) es)

stale_hit-evictable :
    (k : Names) (fresh : Option ℕ) (i : ℕ) (e : Entry)
    → evictable e.kind ≡ false
    → stale_hit k fresh i e ≡ false
unfolding stale_hit
stale_hit-evictable k fresh i e h = ground arith

pub purge_stale_stream-Keeps :
    (k : Names) (now max_age : ℕ) (g : Inner) (s : LiveQueueStats)
    → Keeps g s
        (purge_stale_stream k now max_age g s).0.0
        (purge_stale_stream k now max_age g s).0.1
unfolding purge_stale_stream
purge_stale_stream-Keeps k now max_age g s = cut-Keeps stale _ _ g s (record {
  sums = λ f. keep_at-sums (stale_hit k fresh) f 0 g.entries;
  lengths = keep_at-lengths (stale_hit k fresh) 0 g.entries;
  same_controls =
      keep_at_spares (stale_hit k fresh) is_control
        (λ i e h. stale_hit-evictable k fresh i e (control_not_evictable e h)) 0 g.entries;
})
  where
    fresh : Option ℕ
    fresh = position (is_fresh_resync k now max_age) g.entries

-- A counter outside the tally moves.
pub other_counter-Keeps :
    (g : Inner) (s s' : LiveQueueStats)
    → s'.dropped_total ≡ s.dropped_total
    → (Tally s → Tally s')
    → Keeps g s g s'
other_counter-Keeps g s s' h t = record {
  books = λ b. b;
  distinct = λ d. d;
  tally = t;
  balanced = ap (λ n. (length g.entries + n) % u64_mod) h;
  controls = refl;
  shorter = omega arith;
  lighter = omega arith;
  closed_same = refl;
}

pub count_resync-Keeps : (g : Inner) (s : LiveQueueStats) → Keeps g s g (count_resync s)
unfolding count_resync
count_resync-Keeps g s = other_counter-Keeps g s _ refl (λ t. record { tallied = t.tallied })

settle_aged-Keeps :
    (k : Names) (now : ℕ) (g : Inner) (s : LiveQueueStats) (flags : Bool × Bool)
    → Keeps g s (settle_aged k now (g, s) flags).0 (settle_aged k now (g, s) flags).1
unfolding settle_aged
settle_aged-Keeps k now g s (true, true) =
    Keeps-trans (update_state-Keeps k g s stop_waiting stop_waiting-Neutral)
      (Keeps-trans (prune_idle-Keeps k _ s) (count_resync-Keeps _ s))
settle_aged-Keeps k now g s (true, false) =
    Keeps-trans (update_state-Keeps k g s stop_waiting stop_waiting-Neutral)
      (prune_idle-Keeps k _ s)
settle_aged-Keeps k now g s (false, skipped) =
    Keeps-trans (modify_state-Keeps k g s (start_waiting now) (start_waiting-Neutral now))
      (prune_idle-Keeps k _ s)

age_out-Keeps :
    (k : Names) (now : ℕ) (cfg : LiveQueueConfig) (g : Inner) (s : LiveQueueStats)
    → Keeps g s (age_out k now cfg g s).0 (age_out k now cfg g s).1
unfolding age_out
age_out-Keeps k now cfg g s =
    let r = purge_stale_stream k now cfg.max_media_age g s in
    Keeps-trans (purge_stale_stream-Keeps k now cfg.max_media_age g s)
      (settle_aged-Keeps k now r.0.0 r.0.1 r.1)

age_out_all-Keeps :
    (ks : List Names) (now : ℕ) (cfg : LiveQueueConfig) (g : Inner) (s : LiveQueueStats)
    → Keeps g s (age_out_all ks now cfg g s).0 (age_out_all ks now cfg g s).1
unfolding age_out_all
age_out_all-Keeps [] now cfg g s = Keeps-refl g s
age_out_all-Keeps (k ∷ ks) now cfg g s =
    let r = age_out k now cfg g s in
    Keeps-trans (age_out-Keeps k now cfg g s) (age_out_all-Keeps ks now cfg r.0 r.1)

pub enforce_age-Keeps :
    (now : ℕ) (cfg : LiveQueueConfig) (g : Inner) (s : LiveQueueStats)
    → Keeps g s (enforce_age now cfg g s).0 (enforce_age now cfg g s).1
unfolding enforce_age
enforce_age-Keeps now cfg g s = elim (Bool-cases (head_old now cfg g.entries)) [
  | inl e ↦ rw e (age_out_all-Keeps (stale_names now cfg.max_media_age g.entries []) now cfg g s)
  | inr e ↦ rw e (Keeps-refl g s)
]

release_all-Keeps :
    (xs : Map Names StreamState) (g : Inner) (s : LiveQueueStats)
    → Keeps g s (release_all xs g s).0 (release_all xs g s).1
unfolding release_all
release_all-Keeps [] g s = Keeps-refl g s
release_all-Keeps ((k, st) ∷ xs) g s =
    Keeps-trans (update_state-Keeps k g s stop_waiting stop_waiting-Neutral) (
      Keeps-trans (prune_idle-Keeps k _ s) (
        Keeps-trans (other_counter-Keeps _ s _ refl (λ t. record { tallied = t.tallied }))
          (release_all-Keeps xs _ _)))

pub release_expired_waits-Keeps :
    (now : ℕ) (cfg : LiveQueueConfig) (g : Inner) (s : LiveQueueStats)
    → Keeps g s (release_expired_waits now cfg g s).0 (release_expired_waits now cfg g s).1
unfolding release_expired_waits
release_expired_waits-Keeps now cfg g s =
    release_all-Keeps (keep (wait_expired now cfg) g.streams) g s
