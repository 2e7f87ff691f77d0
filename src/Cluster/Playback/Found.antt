-- ===== src/Cluster/Playback/Found.antt =====
-- src/db.rs, `viewer_and_stream_by_play_key`: what the advertised play key of a stream finds.
use librtmp2_server.Base.{
  ◌≡◌, refl, sym, ap, ◌∙◌, subst, arith, true, ◌&&◌, some, List, [], ◌∷◌, Text, text_eq,
  text_eqb_iff, ◌==◌, ==→eq, any_of, All, Bool-cases, inl, inr, some_inj,
}
use librtmp2_server.Db.Tables.{
  Stream, StreamRow, StreamViewer, Database, Fault, DbLookup, found, is_valid_access_key,
  stream_has_key, viewer_has_key, has_id, find_stream,
}
use librtmp2_server.Db.Viewers.{joined_row, viewer_and_stream_by_play_key}
use librtmp2_server.Cluster.Keys.Defs.{StreamLeads, ViewerLeads, KeyUnique}
use librtmp2_server.Cluster.Playback.Rows.{plays, Advertised, Playable}

-- A lookup answers with this stream and an enabled viewer.
abbrev pub Finds : Stream → DbLookup (StreamViewer × Stream) → Type 0
Finds s answer = (v : StreamViewer) × (answer ≡ found (v, s)) × (v.enabled ≡ true)

find_stream-All :
    (P : StreamRow → Type 0) (id : Text) (rs : List StreamRow) (r : StreamRow)
    → find_stream id rs ≡ some r
    → All P rs
    → P r × (r.stream.id ≡ id)
unfolding find_stream has_id
find_stream-All P id [] r there h = absurd (ground (arith, there))
find_stream-All P id (q ∷ rs) r there h = elim (Bool-cases (q.stream.id == id)) [
  | inl same ↦
      subst (λ (x : StreamRow). P x × (x.stream.id ≡ id)) (some_inj (ground (arith, there, same)))
        (h.0, ==→eq q.stream.id id same)
  | inr other ↦ find_stream-All P id rs r (ground (arith, there, other)) h.1
]

joined_row-Finds :
    (rs : List StreamRow) (r : StreamRow) (vs : List StreamViewer)
    → find_stream r.stream.id rs ≡ some r
    → All (ViewerLeads r.stream.play_key r.stream.id) vs
    → any_of (plays r.stream) vs ≡ true
    → Finds r.stream (joined_row r.stream.play_key rs vs)
unfolding joined_row plays any_of viewer_has_key
joined_row-Finds rs r [] there leads some_plays = absurd (ground (arith, some_plays))
joined_row-Finds rs r (v ∷ vs) there leads some_plays =
    elim (Bool-cases (v.play_key == r.stream.play_key && v.enabled)) [
      | inl fits ↦
          let at = ap (λ (i : Text). find_stream i rs) (leads.0 (ground (arith, fits))) ∙ there in
          rw (fits, at) (v, refl, ground (arith, fits))
      | inr other ↦
          rw other (joined_row-Finds rs r vs there leads.1 (ground (arith, some_plays, other)))
    ]

pub advertised-Finds :
    (f : Fault) (d : Database) (id : Text) (r : StreamRow)
    → f.query ≡ true
    → find_stream id d.streams ≡ some r
    → is_valid_access_key r.stream.play_key ≡ true
    → Playable d
    → KeyUnique d
    → Finds r.stream (viewer_and_stream_by_play_key f r.stream.play_key d)
unfolding viewer_and_stream_by_play_key stream_has_key
advertised-Finds f d id r works there valid playable keys =
    let (target, leads) = keys.leads r.stream.play_key valid in
    let own =
      find_stream-All (StreamLeads r.stream.play_key target) id d.streams r there leads.by_stream in
    let advertised =
      find_stream-All (Advertised d.viewers) id d.streams r there playable.advertised in
    let is_own : r.stream.id ≡ target =
      own.0 (ground (arith, text_eqb_iff r.stream.play_key r.stream.play_key)) in
    rw (valid, works)
      (joined_row-Finds d.streams r d.viewers
        (ap (λ (i : Text). find_stream i d.streams) own.1 ∙ there)
        (subst (λ (i : Text). All (ViewerLeads r.stream.play_key i) d.viewers) (sym is_own)
          leads.by_viewer)
        advertised.0)
