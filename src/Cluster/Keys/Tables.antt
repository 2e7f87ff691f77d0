-- ===== src/Cluster/Keys/Tables.antt =====
-- src/db.rs: the calls that add rows, and where access keys lead after them.
use librtmp2_server.Base.{
  ◌&&◌, ◌≡◌, refl, arith, true, false, not, ◌||◌, List, [], ◌∷◌, Text, text_eq, text_eqb_iff, ◌==◌,
  any_of, All, All-append, map_or, if-elim, Bool-cases, inl, inr,
}
use librtmp2_server.Db.Tables.{
  Stream, StreamRow, StreamViewer, Database, Fault, stream_has_key, viewer_has_key,
  is_valid_access_key, key_globally_in_use_locked, find_stream, has_id,
}
use librtmp2_server.Db.Streams.{
  stream_keys_in_use, stream_conflicts, add_stream_row, add_viewer_row,
  stream_insert_only_with_token, stream_add_with_viewer_with_token, viewer_conflicts,
}
use librtmp2_server.Db.Viewers.{parent_available, viewer_add, viewer_key_taken, is_default_play}
use librtmp2_server.Cluster.Keys.Defs.{
  StreamLeads, ViewerLeads, LeadsTo, LeadsToOne, KeyUnique, unused-LeadsTo,
}

-- A call leaves every valid key with at most one stream.
abbrev pub After : {R : Type 0} → Database × R → Type 0
After r = KeyUnique r.0

abbrev new_row : Stream → Text → StreamRow
new_row s token = record { stream = s; pending_delete = false; delete_token = token }

not_in_use-LeadsTo :
    (fault : Fault) (key id : Text) (d : Database)
    → fault.key_query ≡ true
    → is_valid_access_key key ≡ true
    → key_globally_in_use_locked fault key d ≡ false
    → LeadsTo key id d
unfolding key_globally_in_use_locked
not_in_use-LeadsTo fault key id d q valid free =
    unused-LeadsTo key id d (ground arith) (ground arith)

stream_keys-free :
    (fault : Fault) (s : Stream) (token key : Text) (d : Database)
    → stream_keys_in_use fault s d ≡ false
    → stream_has_key key (new_row s token) ≡ true
    → key_globally_in_use_locked fault key d ≡ false
unfolding stream_keys_in_use stream_has_key
stream_keys-free fault s token key d free has = ground (
  arith,
  text_eqb_iff s.publish_key key,
  text_eqb_iff s.play_key key,
  text_eqb_iff s.stats_key key,
)

-- Where `key` leads once the row of `s` is there.
new_stream-Leads :
    (fault : Fault) (s : Stream) (token key : Text) (d : Database)
    → fault.key_query ≡ true
    → is_valid_access_key key ≡ true
    → stream_keys_in_use fault s d ≡ false
    → LeadsToOne key d
    → (id : Text) × LeadsTo key id d × StreamLeads key id (new_row s token)
new_stream-Leads fault s token key d q valid free (id, h) =
    elim (Bool-cases (stream_has_key key (new_row s token))) [
      | inl has ↦ (
        s.id,
        not_in_use-LeadsTo fault key s.id d q valid (stream_keys-free fault s token key d free has),
        λ e. refl,
      )
      | inr other ↦ (id, h, λ e. ground arith)
    ]

add_stream_row-LeadsTo :
    (s : Stream) (token key id : Text) (d : Database)
    → LeadsTo key id d
    → StreamLeads key id (new_row s token)
    → LeadsTo key id (add_stream_row s token d)
unfolding add_stream_row
add_stream_row-LeadsTo s token key id d h new = record {
  by_stream =
      All-append (StreamLeads key id) d.streams (new_row s token ∷ []) h.by_stream (new, tt);
  by_viewer = h.by_viewer;
}

add_viewer_row-LeadsTo :
    (v : StreamViewer) (key id : Text) (d : Database)
    → LeadsTo key id d
    → ViewerLeads key id v
    → LeadsTo key id (add_viewer_row v d)
unfolding add_viewer_row
add_viewer_row-LeadsTo v key id d h new = record {
  by_stream = h.by_stream;
  by_viewer = All-append (ViewerLeads key id) d.viewers (v ∷ []) h.by_viewer (new, tt);
}

pub stream_insert_only-KeyUnique :
    (fault : Fault) (s : Stream) (token : Text) (d : Database)
    → fault.key_query ≡ true
    → KeyUnique d
    → KeyUnique (stream_insert_only_with_token fault s token d).0
unfolding stream_insert_only_with_token
stream_insert_only-KeyUnique fault s token d q h =
    if-elim After (stream_keys_in_use fault s d) (λ e. h)
      (λ free.
        if-elim After (not fault.statement) (λ e. h)
          (λ e.
            if-elim After (any_of (stream_conflicts s) d.streams) (λ e. h)
              (λ e. record {
                leads = λ key valid.
                    let (id, old, new) =
                      new_stream-Leads fault s token key d q valid free (h.leads key valid) in
                    (id, add_stream_row-LeadsTo s token key id d old new);
              })))

-- The default viewer of a stream carries the stream's play key.
default_viewer-Leads :
    (s : Stream) (v : StreamViewer) (token key id : Text)
    → (not (v.stream_id == s.id) || not (v.play_key == s.play_key)) ≡ false
    → StreamLeads key id (new_row s token)
    → ViewerLeads key id v
unfolding viewer_has_key stream_has_key
default_viewer-Leads s v token key id same new has =
    ground (arith, text_eqb_iff v.stream_id s.id, text_eqb_iff v.play_key s.play_key)

pub stream_add_with_viewer-KeyUnique :
    (fault : Fault) (s : Stream) (v : StreamViewer) (token : Text) (d : Database)
    → fault.key_query ≡ true
    → KeyUnique d
    → KeyUnique (stream_add_with_viewer_with_token fault s v token d).0
unfolding stream_add_with_viewer_with_token
stream_add_with_viewer-KeyUnique fault s v token d q h =
    if-elim After (not (v.stream_id == s.id) || not (v.play_key == s.play_key)) (λ e. h)
      (λ same.
        if-elim After (stream_keys_in_use fault s d) (λ e. h)
          (λ free.
            if-elim After (not fault.statement) (λ e. h)
              (λ e.
                if-elim After (any_of (stream_conflicts s) d.streams) (λ e. h)
                  (λ e.
                    if-elim After (any_of (viewer_conflicts v) d.viewers) (λ e. h)
                      (λ e. record {
                        leads = λ key valid.
                            let (id, old, new) =
                              new_stream-Leads fault s token key d q valid free
                                (h.leads key valid) in
                            (
                              id,
                              add_viewer_row-LeadsTo v key id _
                                  (add_stream_row-LeadsTo s token key id d old new)
                                  (default_viewer-Leads s v token key id same new),
                            );
                      })))))

-- The row that `find_stream` finds leads where the table leads.
found_default-Leads :
    (v : StreamViewer) (key id : Text) (rs : List StreamRow)
    → All (StreamLeads key id) rs
    → (v.play_key == key) ≡ true
    → map_or (find_stream v.stream_id rs) false (λ (r : StreamRow). r.stream.play_key == v.play_key)
      ≡ true
    → v.stream_id ≡ id
unfolding find_stream stream_has_key has_id
found_default-Leads v key id [] h same e = ground arith
found_default-Leads v key id (r ∷ rs) h same e = ground (
  arith,
  found_default-Leads v key id rs h.1,
  h.0,
  text_eqb_iff v.play_key key,
  text_eqb_iff r.stream.play_key v.play_key,
  text_eqb_iff r.stream.play_key key,
  text_eqb_iff r.stream.id v.stream_id,
)

-- Where `key` leads once the row of viewer `v` is there.
new_viewer-Leads :
    (fault : Fault) (v : StreamViewer) (key : Text) (d : Database)
    → fault.key_query ≡ true
    → is_valid_access_key key ≡ true
    → viewer_key_taken fault v d ≡ false
    → LeadsToOne key d
    → (id : Text) × LeadsTo key id d × ViewerLeads key id v
unfolding viewer_key_taken is_default_play viewer_has_key
new_viewer-Leads fault v key d q valid free (id, h) = elim (Bool-cases (v.play_key == key)) [
  | inr other ↦ (id, h, λ e. ground arith)
  | inl same ↦ elim (Bool-cases (is_default_play v d)) [
    | inl default ↦ (id, h, λ e. found_default-Leads v key id d.streams h.by_stream same default)
    | inr other ↦ (
      v.stream_id,
      not_in_use-LeadsTo fault key v.stream_id d q valid
          (ground (arith, text_eqb_iff v.play_key key)),
      λ e. refl,
    )
  ]
]

pub viewer_add-KeyUnique :
    (fault : Fault) (v : StreamViewer) (d : Database)
    → fault.key_query ≡ true
    → KeyUnique d
    → KeyUnique (viewer_add fault v d).0
unfolding viewer_add
viewer_add-KeyUnique fault v d q h =
    if-elim After (not fault.query) (λ e. h)
      (λ e.
        if-elim After (is_default_play v d && not fault.key_query) (λ e. h)
          (λ e.
            if-elim After (viewer_key_taken fault v d) (λ e. h)
              (λ free.
                if-elim After (not fault.statement) (λ e. h)
                  (λ e.
                    if-elim After (not (parent_available v d)) (λ e. h)
                      (λ e.
                        if-elim After (any_of (viewer_conflicts v) d.viewers) (λ e. h)
                          (λ e. record {
                            leads = λ key valid.
                                let (id, old, new) =
                                  new_viewer-Leads fault v key d q valid free (h.leads key valid) in
                                (id, add_viewer_row-LeadsTo v key id d old new);
                          }))))))
