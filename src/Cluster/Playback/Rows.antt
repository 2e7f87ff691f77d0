-- ===== src/Cluster/Playback/Rows.antt =====
-- src/db.rs: the primary key of `streams`, and the viewer row of an advertised play key.
use librtmp2_server.Base.{
  ◌≡◌, refl, ap, ◌∙◌, arith, Bool, true, false, not, ◌&&◌, ◌||◌, none, some, some_inj, List, [],
  ◌∷◌, ◌++◌, Text, text_eq, text_eqb_iff, ◌==◌, any_of, All, All-weaken, keep, map, any_of-All,
  if-elim, if◌then◌else◌, Bool-cases, inl, inr,
}
use librtmp2_server.Db.Tables.{Stream, StreamRow, StreamViewer, Database, has_id, find_stream}

-- No two rows have the same id.
abbrev pub UniqueIds : List StreamRow → Type 0
UniqueIds [] = Unit
UniqueIds (r ∷ rs) = (any_of (has_id r.stream.id) rs ≡ false) × UniqueIds rs

unfoldable pub plays : Stream → StreamViewer → Bool
plays s v = v.stream_id == s.id && (v.play_key == s.play_key && v.enabled)

-- Some enabled viewer row has the stream's own play key.
abbrev pub Advertised : List StreamViewer → StreamRow → Type 0
Advertised vs r = any_of (plays r.stream) vs ≡ true

pub record Playable (d : Database) : Type 0 where
  pub unique : UniqueIds d.streams
  pub advertised : All (Advertised d.viewers) d.streams

pub any_of-append :
    {A : Type 0} (p : A → Bool) (xs ys : List A)
    → any_of p (xs ++ ys) ≡ (any_of p xs || any_of p ys)
unfolding any_of
any_of-append p [] ys = ground arith
any_of-append p (x ∷ xs) ys = ground (arith, any_of-append p xs ys)

pub any_of-keep :
    {A : Type 0} (p q : A → Bool) (xs : List A) → any_of p xs ≡ false → any_of p (keep q xs) ≡ false
unfolding any_of keep
any_of-keep p q [] h = refl
any_of-keep p q (x ∷ xs) h = ground (arith, any_of-keep p q xs)

-- What a test does not find after a filter.
pub any_of-keep-All :
    {A : Type 0} (p q : A → Bool) (xs : List A)
    → any_of p (keep q xs) ≡ false
    → All (λ x. q x ≡ true → p x ≡ false) xs
unfolding any_of keep
any_of-keep-All p q [] h = tt
any_of-keep-All p q (x ∷ xs) h = ground (arith, any_of-keep-All p q xs)

-- A filter that spares what the test finds.
pub any_of-spared :
    {A : Type 0} (p q : A → Bool) (xs : List A)
    → All (λ x. p x ≡ true → q x ≡ true) xs
    → any_of p xs ≡ true
    → any_of p (keep q xs) ≡ true
unfolding any_of keep
any_of-spared p q [] h e = e
any_of-spared p q (x ∷ xs) h e = ground (arith, h.0, any_of-spared p q xs h.1)

pub keep-UniqueIds :
    (q : StreamRow → Bool) (rs : List StreamRow) → UniqueIds rs → UniqueIds (keep q rs)
unfolding keep
keep-UniqueIds q [] u = tt
keep-UniqueIds q (r ∷ rs) u =
    if-elim UniqueIds (q r)
      (λ e. (any_of-keep (has_id r.stream.id) q rs u.0, keep-UniqueIds q rs u.1))
      (λ e. keep-UniqueIds q rs u.1)

-- Updates that keep the ids.
any_of-map :
    (f : StreamRow → StreamRow) (p : StreamRow → Bool) (rs : List StreamRow)
    → ((r : StreamRow) → p (f r) ≡ p r)
    → any_of p (map f rs) ≡ any_of p rs
unfolding any_of
any_of-map f p [] h = refl
any_of-map f p (r ∷ rs) h = rw (h r, any_of-map f p rs h) refl

pub map-UniqueIds :
    (f : StreamRow → StreamRow) (rs : List StreamRow)
    → ((r : StreamRow) → (f r).stream.id ≡ r.stream.id)
    → UniqueIds rs
    → UniqueIds (map f rs)
unfolding has_id
map-UniqueIds f [] h u = tt
map-UniqueIds f (r ∷ rs) h u = (
  ap (λ i. any_of (has_id i) (map f rs)) (h r)
      ∙ (any_of-map f (has_id r.stream.id) rs (λ q. ap (λ i. i == r.stream.id) (h q)) ∙ u.0),
  map-UniqueIds f rs h u.1,
)

pub append-UniqueIds :
    (r : StreamRow) (rs : List StreamRow)
    → any_of (has_id r.stream.id) rs ≡ false
    → UniqueIds rs
    → UniqueIds (rs ++ (r ∷ []))
unfolding any_of has_id
append-UniqueIds r [] h u = (refl, tt)
append-UniqueIds r (q ∷ rs) h u = (
  ground (
    arith,
    any_of-append (has_id q.stream.id) rs (r ∷ []),
    text_eqb_iff r.stream.id q.stream.id,
    text_eqb_iff q.stream.id r.stream.id,
  ),
  append-UniqueIds r rs (ground arith) u.1,
)

-- The row that `find_stream` finds is the only one with the id.
pub only_found :
    (id : Text) (rs : List StreamRow) (r : StreamRow)
    → UniqueIds rs
    → find_stream id rs ≡ some r
    → All (λ q. has_id id q ≡ true → q ≡ r) rs
unfolding find_stream has_id
only_found id [] r u e = tt
only_found id (q ∷ rs) r u e = go (has_id id q) refl e (only_found id rs r u.1)
  where
    go :
        (b : Bool)
        → has_id id q ≡ b
        → (if b then some q else find_stream id rs) ≡ some r
        → (find_stream id rs ≡ some r → All (λ q. has_id id q ≡ true → q ≡ r) rs)
        → All (λ q. has_id id q ≡ true → q ≡ r) (q ∷ rs)
    go true t e rest = (
      λ t'. some_inj e,
      All-weaken (λ q. has_id id q ≡ true → q ≡ r) (λ q'. has_id q.stream.id q' ≡ false) rs
          (λ q' no t'. absurd (
            ground (
              arith,
              text_eqb_iff q.stream.id id,
              text_eqb_iff q'.stream.id id,
              text_eqb_iff q'.stream.id q.stream.id,
            )))
          (any_of-All (has_id q.stream.id) rs u.0),
    )
    go false t e rest = (λ t'. absurd (ground arith), rest e)

-- No row has an id that `find_stream` does not find.
pub none_found :
    (id : Text) (rs : List StreamRow) → find_stream id rs ≡ none → All (λ q. has_id id q ≡ false) rs
unfolding find_stream
none_found id [] e = tt
none_found id (q ∷ rs) e = ground (arith, none_found id rs)

any_of-and :
    (id : Text) (p : StreamRow → Bool) (rs : List StreamRow)
    → any_of (λ r. has_id id r && p r) rs ≡ true
    → any_of (has_id id) rs ≡ true
unfolding any_of
any_of-and id p [] e = e
any_of-and id p (r ∷ rs) e = ground (arith, any_of-and id p rs)

-- Where a row with an id satisfies a test, the rows that fail the test have other ids.
pub others_differ :
    (id : Text) (p : StreamRow → Bool) (rs : List StreamRow)
    → UniqueIds rs
    → any_of (λ r. has_id id r && p r) rs ≡ true
    → All (λ r. not (has_id id r && p r) ≡ true → has_id id r ≡ false) rs
unfolding has_id any_of
others_differ id p [] u e = tt
others_differ id p (r ∷ rs) u e = elim (Bool-cases (has_id id r && p r)) [
  | inl hit ↦ (
    (λ n. ground arith),
    All-weaken (λ r. not (has_id id r && p r) ≡ true → has_id id r ≡ false)
        (λ q. has_id r.stream.id q ≡ false) rs
        (λ q no n. ground (arith, text_eqb_iff r.stream.id id))
        (any_of-All (has_id r.stream.id) rs u.0),
  )
  | inr miss ↦ (
    (λ n. ground (arith, text_eqb_iff r.stream.id id, any_of-and id p rs)),
    others_differ id p rs u.1 (ground arith),
  )
]
