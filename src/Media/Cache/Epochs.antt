-- ===== src/Media/Cache/Epochs.antt =====
-- src/cluster/media/cache.rs: staged init fields belong to the epoch of their entry, and that epoch
-- does not go back.
use librtmp2_server.Base.{
  ℕ, ◌≡◌, ◌≤◌, refl, sym, subst, arith, Bool, false, ◌||◌, Option, none, some, List, [], ◌∷◌, Text,
  lookup, insert, All, map_or, if-elim, ltb, nat_eqb, text_eq, pair_eq, ◌==◌, ==→eq, view-insert_at,
}
use librtmp2_server.Media.Protocol.{FrameType, frame_type_to_librtmp2}
use librtmp2_server.Media.Cache.{
  CacheFrameKind, video_sequence_header, video_keyframe, audio_sequence_header, live_only,
  InitCacheEntry, default_entry, Names, InitCacheStore, put_if_epoch_ge, put, enter_epoch,
  same_header, stage, update_entry, entry_at, update_from_frame, Staging, whole, frame, stage_call,
  stage_calls, staged_epoch,
}

-- What holds of every staged part at the epoch of its entry.
pub record Sourced (P : ℕ → Text → Type 0) (e : InitCacheEntry) : Type 0 where
  pub metadata : map_or e.metadata Unit (P e.epoch)
  pub avc_header : map_or e.avc_header Unit (P e.epoch)
  pub aac_header : map_or e.aac_header Unit (P e.epoch)
  pub keyframe : map_or e.keyframe Unit (λ x. P e.epoch x.1)

abbrev pub Offers : (P : ℕ → Text → Type 0) → Staging → Type 0
Offers P (whole entry) = Sourced P entry
Offers P (frame epoch frame_type timestamp payload) = P epoch payload

module _ (P : ℕ → Text → Type 0) where
  empty-Sourced : (epoch : ℕ) → Sourced P (record default_entry { epoch = epoch })
  empty-Sourced epoch = record { metadata = tt; avc_header = tt; aac_header = tt; keyframe = tt }

  stage-Sourced :
      (kind : CacheFrameKind) (ft ts : ℕ) (payload : Text) (e : InitCacheEntry)
      → P e.epoch payload
      → Sourced P e
      → Sourced P (stage kind ft ts payload e)
  unfolding stage
  stage-Sourced video_sequence_header ft ts payload e p h = record {
    metadata = h.metadata;
    avc_header = p;
    aac_header = h.aac_header;
    keyframe =
        if-elim (λ (k : Option (ℕ × Text)). map_or k Unit (λ x. P e.epoch x.1))
          (same_header e.avc_header payload) (λ s. h.keyframe) (λ s. tt);
  }
  stage-Sourced video_keyframe ft ts payload e p h = record {
    metadata = h.metadata;
    avc_header = h.avc_header;
    aac_header = h.aac_header;
    keyframe = p;
  }
  stage-Sourced audio_sequence_header ft ts payload e p h = record {
    metadata = h.metadata;
    avc_header = h.avc_header;
    aac_header = p;
    keyframe = h.keyframe;
  }
  stage-Sourced live_only ft ts payload e p h =
      if-elim (Sourced P) (nat_eqb ft 2 || nat_eqb ft 3)
        (λ s. record {
          metadata = p;
          avc_header = h.avc_header;
          aac_header = h.aac_header;
          keyframe = h.keyframe;
        })
        (λ s. h)

  update-Sourced :
      (kind : CacheFrameKind) (epoch ft ts : ℕ) (payload : Text) (e : InitCacheEntry)
      → P epoch payload
      → Sourced P e
      → Sourced P (update_entry kind epoch ft ts payload e)
  unfolding update_entry enter_epoch
  update-Sourced kind epoch ft ts payload e p h =
      if-elim (Sourced P) (ltb epoch e.epoch) (λ s. h)
        (λ old.
          if-elim (λ e'. Sourced P (stage kind ft ts payload e')) (ltb e.epoch epoch)
            (λ s.
              stage-Sourced kind ft ts payload (record default_entry { epoch = epoch }) p
                (empty-Sourced epoch))
            (λ s. stage-Sourced kind ft ts payload e (subst (λ n. P n payload) (ground arith) p) h))

  abbrev pub AllSourced : InitCacheStore → Type 0
  AllSourced g = All (λ (x : Names × InitCacheEntry). Sourced P x.1) g

  insert-AllSourced :
      (key : Names) (e : InitCacheEntry) (g : InitCacheStore)
      → Sourced P e
      → AllSourced g
      → AllSourced (insert key e g)
  unfolding insert
  insert-AllSourced key e [] h all = (h, tt)
  insert-AllSourced key e (x ∷ g) h all =
      if-elim AllSourced (x.0 == key) (λ s. (h, all.1))
        (λ s. (all.0, insert-AllSourced key e g h all.1))

  entry_at-Sourced : (key : Names) (g : InitCacheStore) → AllSourced g → Sourced P (entry_at key g)
  unfolding entry_at lookup
  entry_at-Sourced key [] all = empty-Sourced 0
  entry_at-Sourced key (x ∷ g) all =
      if-elim (λ (o : Option InitCacheEntry). Sourced P (map_or o default_entry (λ e. e)))
        (x.0 == key) (λ s. all.0) (λ s. entry_at-Sourced key g all.1)

  module _ (classify_cache_frame : FrameType → Text → CacheFrameKind) where
    call-AllSourced :
        (key : Names) (c : Staging) (g : InitCacheStore)
        → Offers P c
        → AllSourced g
        → AllSourced (stage_call classify_cache_frame key c g)
    unfolding stage_call put put_if_epoch_ge update_from_frame
    call-AllSourced key (whole entry) g h all =
        if-elim (λ (r : InitCacheStore × Bool). AllSourced r.0)
          (map_or (lookup key g) false (λ existing. ltb entry.epoch existing.epoch)) (λ s. all)
          (λ s. insert-AllSourced key entry g h all)
    call-AllSourced key (frame epoch ft ts payload) g h all =
        elim (frame_type_to_librtmp2 ft)
          as (λ o. AllSourced (
            map_or o g (λ t.
              insert key
                (update_entry (classify_cache_frame t payload) epoch ft ts payload (entry_at key g))
                g))) [
                  | none ↦ all
                  | some t ↦
                      insert-AllSourced key _ g
                        (update-Sourced (classify_cache_frame t payload) epoch ft ts payload
                          (entry_at key g) h (entry_at-Sourced key g all))
                        all
                ]

-- Let `P` hold of every part that is offered, in an entry or as a frame, at the epoch it is offered
-- under. Then whatever is offered, for whatever streams and in whatever order, `P` holds of every
-- staged part at the epoch of its entry. So no entry mixes the init fields of two epochs.
pub stage_calls-Sourced :
    (P : ℕ → Text → Type 0) (classify_cache_frame : FrameType → Text → CacheFrameKind)
    (cs : List (Names × Staging)) (g : InitCacheStore)
    → All (λ (c : Names × Staging). Offers P c.1) cs
    → AllSourced P g
    → AllSourced P (stage_calls classify_cache_frame cs g)
unfolding stage_calls
stage_calls-Sourced P classify [] g h all = all
stage_calls-Sourced P classify (c ∷ cs) g h all =
    stage_calls-Sourced P classify cs _ h.1 (call-AllSourced P classify c.0 c.1 g h.0 all)

insert-epoch :
    (key k : Names) (e : InitCacheEntry) (g : InitCacheStore)
    → staged_epoch key g ≤ e.epoch
    → staged_epoch k g ≤ staged_epoch k (insert key e g)
unfolding staged_epoch
insert-epoch key k e g le =
    subst (λ n. staged_epoch k g ≤ n)
      (sym (view-insert_at (λ (x : InitCacheEntry). x.epoch) 0 k key g e))
      (if-elim (λ n. staged_epoch k g ≤ n) (key == k)
        (λ s. subst (λ j. staged_epoch j g ≤ e.epoch) (==→eq key k s) le) (λ s. omega arith))

fresh-epoch :
    (key : Names) (entry : InitCacheEntry) (g : InitCacheStore)
    → map_or (lookup key g) false (λ existing. ltb entry.epoch existing.epoch) ≡ false
    → staged_epoch key g ≤ entry.epoch
unfolding staged_epoch
fresh-epoch key entry g = go (lookup key g)
  where
    go :
        (o : Option InitCacheEntry)
        → map_or o false (λ existing. ltb entry.epoch existing.epoch) ≡ false
        → map_or o 0 (λ e. e.epoch) ≤ entry.epoch
    go none h = omega arith
    go (some e) h = ground arith

stage-epoch :
    (kind : CacheFrameKind) (ft ts : ℕ) (payload : Text) (e : InitCacheEntry)
    → (stage kind ft ts payload e).epoch ≡ e.epoch
unfolding stage
stage-epoch video_sequence_header ft ts payload e = refl
stage-epoch video_keyframe ft ts payload e = refl
stage-epoch audio_sequence_header ft ts payload e = refl
stage-epoch live_only ft ts payload e =
    if-elim (λ (x : InitCacheEntry). x.epoch ≡ e.epoch) (nat_eqb ft 2 || nat_eqb ft 3) (λ s. refl)
      (λ s. refl)

update-epoch :
    (kind : CacheFrameKind) (epoch ft ts : ℕ) (payload : Text) (e : InitCacheEntry)
    → e.epoch ≤ (update_entry kind epoch ft ts payload e).epoch
unfolding update_entry enter_epoch
update-epoch kind epoch ft ts payload e =
    if-elim (λ (x : InitCacheEntry). e.epoch ≤ x.epoch) (ltb epoch e.epoch) (λ s. omega arith)
      (λ s.
        subst (λ n. e.epoch ≤ n) (sym (stage-epoch kind ft ts payload _))
          (if-elim (λ (x : InitCacheEntry). e.epoch ≤ x.epoch) (ltb e.epoch epoch)
            (λ t. ground arith) (λ t. omega arith)))

entry_at-epoch : (key : Names) (g : InitCacheStore) → (entry_at key g).epoch ≡ staged_epoch key g
unfolding entry_at staged_epoch
entry_at-epoch key g =
    elim (lookup key g)
      as (λ o. InitCacheEntry.epoch (map_or o default_entry (λ e. e)) ≡ map_or o 0 (λ e. e.epoch)) [
        | none ↦ refl
        | some e ↦ refl
      ]

-- Staging never takes a stream back to an older epoch, whatever is offered for whatever stream.
pub stage_call-epoch :
    (classify_cache_frame : FrameType → Text → CacheFrameKind) (key k : Names) (c : Staging)
    (g : InitCacheStore)
    → staged_epoch k g ≤ staged_epoch k (stage_call classify_cache_frame key c g)
unfolding stage_call put put_if_epoch_ge update_from_frame
stage_call-epoch classify key k (whole entry) g =
    if-elim (λ (r : InitCacheStore × Bool). staged_epoch k g ≤ staged_epoch k r.0)
      (map_or (lookup key g) false (λ existing. ltb entry.epoch existing.epoch)) (λ s. omega arith)
      (λ s. insert-epoch key k entry g (fresh-epoch key entry g s))
stage_call-epoch classify key k (frame epoch ft ts payload) g =
    elim (frame_type_to_librtmp2 ft)
      as (λ o.
        staged_epoch k g
        ≤ staged_epoch k (
            map_or o g (λ t.
              insert key (update_entry (classify t payload) epoch ft ts payload (entry_at key g))
                g))) [
                  | none ↦ omega arith
                  | some t ↦ insert-epoch key k _ g (
                      subst
                        (λ n.
                          n
                          ≤ InitCacheEntry.epoch (
                              update_entry (classify t payload) epoch ft ts payload
                                (entry_at key g)))
                        (entry_at-epoch key g)
                        (update-epoch (classify t payload) epoch ft ts payload (entry_at key g)))
                ]
