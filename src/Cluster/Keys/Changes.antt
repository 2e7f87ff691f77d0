-- ===== src/Cluster/Keys/Changes.antt =====
-- src/db.rs: the calls that change and delete rows, and where access keys lead after them.
use librtmp2_server.Base.{
  ℕ, ◌≡◌, refl, Bool, not, ◌&&◌, Option, Text, text_eq, ◌==◌, any_of, All-keep, All-map, map,
  if-elim,
}
use librtmp2_server.Db.Tables.{StreamRow, StreamViewer, Database, Fault, stream_has_key, has_id}
use librtmp2_server.Db.Streams.{
  identity_matches, disable_row, stream_disable_expecting, enable_row, stream_set_enabled,
  delete_stream_rows, stream_delete_if_pending,
}
use librtmp2_server.Db.Viewers.{viewer_delete, is_viewer}
use librtmp2_server.Cluster.Keys.Defs.{StreamLeads, ViewerLeads, KeyUnique}
use librtmp2_server.Cluster.Keys.Tables.{After}

disable_row-Leads :
    (id : Text) (created : Option ℕ) (token : Option Text) (key target : Text) (r : StreamRow)
    → StreamLeads key target r
    → StreamLeads key target (disable_row id created token r)
unfolding disable_row stream_has_key
disable_row-Leads id created token key target r h =
    if-elim (StreamLeads key target) (has_id id r && identity_matches created token r) (λ e. h)
      (λ e. h)

enable_row-Leads :
    (id : Text) (enabled : Bool) (key target : Text) (r : StreamRow)
    → StreamLeads key target r
    → StreamLeads key target (enable_row id enabled r)
unfolding enable_row stream_has_key
enable_row-Leads id enabled key target r h =
    if-elim (StreamLeads key target) (has_id id r) (λ e. h) (λ e. h)

deletion-KeyUnique : (id : Text) (d : Database) → KeyUnique d → KeyUnique (delete_stream_rows id d)
unfolding delete_stream_rows
deletion-KeyUnique id d h = record {
  leads = λ key valid.
      let (target, old) = h.leads key valid in
      (
        target,
        record {
          by_stream =
              All-keep (StreamLeads key target)
                (λ (r : StreamRow). not (has_id id r && r.pending_delete)) d.streams old.by_stream;
          by_viewer =
              All-keep (ViewerLeads key target) (λ (v : StreamViewer). not (v.stream_id == id))
                d.viewers old.by_viewer;
        },
      );
}

-- Updates of rows that keep ids and keys, and deletions.
map-KeyUnique :
    (f : StreamRow → StreamRow) (d d' : Database)
    → ((key id : Text) (r : StreamRow) → StreamLeads key id r → StreamLeads key id (f r))
    → d'.streams ≡ map f d.streams
    → d'.viewers ≡ d.viewers
    → KeyUnique d
    → KeyUnique d'
map-KeyUnique f d d' keeps s v h = record {
  leads = λ key valid.
      let (id, old) = h.leads key valid in
      (
        id,
        record {
          by_stream = rw s (
              All-map (StreamLeads key id) f (StreamLeads key id) d.streams (keeps key id)
                old.by_stream);
          by_viewer = rw v old.by_viewer;
        },
      );
}

pub stream_disable_expecting-KeyUnique :
    (fault : Fault) (id : Text) (created : Option ℕ) (token : Option Text) (d : Database)
    → KeyUnique d
    → KeyUnique (stream_disable_expecting fault id created token d).0
unfolding stream_disable_expecting
stream_disable_expecting-KeyUnique fault id created token d h =
    if-elim After (not fault.statement) (λ e. h)
      (λ e.
        if-elim After (any_of (λ r. has_id id r && identity_matches created token r) d.streams)
          (λ e.
            map-KeyUnique (disable_row id created token) d _ (disable_row-Leads id created token)
              refl refl h)
          (λ e.
            if-elim After (not fault.query) (λ e. h)
              (λ e. if-elim After (any_of (has_id id) d.streams) (λ e. h) (λ e. h))))

pub stream_set_enabled-KeyUnique :
    (fault : Fault) (id : Text) (enabled : Bool) (d : Database)
    → KeyUnique d
    → KeyUnique (stream_set_enabled fault id enabled d).0
unfolding stream_set_enabled
stream_set_enabled-KeyUnique fault id enabled d h =
    if-elim After fault.statement
      (λ e. map-KeyUnique (enable_row id enabled) d _ (enable_row-Leads id enabled) refl refl h)
      (λ e. h)

pub stream_delete_if_pending-KeyUnique :
    (fault : Fault) (id : Text) (d : Database)
    → KeyUnique d
    → KeyUnique (stream_delete_if_pending fault id d).0
unfolding stream_delete_if_pending
stream_delete_if_pending-KeyUnique fault id d h =
    if-elim After (not fault.statement) (λ e. h)
      (λ e.
        if-elim After (any_of (λ (r : StreamRow). has_id id r && r.pending_delete) d.streams)
          (λ e. deletion-KeyUnique id d h) (λ e. h))

pub viewer_delete-KeyUnique :
    (fault : Fault) (stream_id viewer_id : Text) (d : Database)
    → KeyUnique d
    → KeyUnique (viewer_delete fault stream_id viewer_id d).0
unfolding viewer_delete
viewer_delete-KeyUnique fault stream_id viewer_id d h =
    if-elim After fault.statement
      (λ e. record {
        leads = λ key valid.
            let (id, old) = h.leads key valid in
            (
              id,
              record {
                by_stream = old.by_stream;
                by_viewer =
                    All-keep (ViewerLeads key id) (λ v. not (is_viewer stream_id viewer_id v))
                      d.viewers old.by_viewer;
              },
            );
      })
      (λ e. h)

-- Tables that hold no key do not matter.
pub same_rows-KeyUnique :
    (d d' : Database) → d'.streams ≡ d.streams → d'.viewers ≡ d.viewers → KeyUnique d → KeyUnique d'
same_rows-KeyUnique d d' s v h = record {
  leads = λ key valid.
      let (id, old) = h.leads key valid in
      (id, record { by_stream = rw s old.by_stream; by_viewer = rw v old.by_viewer });
}
