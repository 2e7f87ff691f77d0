-- ===== src/Cluster/Keys/Defs.antt =====
-- src/db.rs: an access key and the rows that carry it.
use librtmp2_server.Base.{
  ◌≡◌, arith, true, false, Text, text_eq, any_of, All, All-weaken, any_of-All,
}
use librtmp2_server.Db.Tables.{
  StreamRow, StreamViewer, Database, stream_has_key, viewer_has_key, is_valid_access_key,
}

-- Every row that carries `key` belongs to stream `id`.
abbrev pub StreamLeads : Text → Text → StreamRow → Type 0
StreamLeads key id r = stream_has_key key r ≡ true → r.stream.id ≡ id

abbrev pub ViewerLeads : Text → Text → StreamViewer → Type 0
ViewerLeads key id v = viewer_has_key key v ≡ true → v.stream_id ≡ id

pub record LeadsTo (key id : Text) (d : Database) : Type 0 where
  pub by_stream : All (StreamLeads key id) d.streams
  pub by_viewer : All (ViewerLeads key id) d.viewers

abbrev pub LeadsToOne : Text → Database → Type 0
LeadsToOne key d = (id : Text) × LeadsTo key id d

-- A valid access key leads to at most one stream.
pub record KeyUnique (d : Database) : Type 0 where
  pub leads : (key : Text) → is_valid_access_key key ≡ true → LeadsToOne key d

-- A key in no row leads wherever one likes.
pub unused-LeadsTo :
    (key id : Text) (d : Database)
    → any_of (stream_has_key key) d.streams ≡ false
    → any_of (viewer_has_key key) d.viewers ≡ false
    → LeadsTo key id d
unused-LeadsTo key id d s v = record {
  by_stream =
      All-weaken (StreamLeads key id) (λ r. stream_has_key key r ≡ false) d.streams
        (λ r no. ground arith) (any_of-All (stream_has_key key) d.streams s);
  by_viewer =
      All-weaken (ViewerLeads key id) (λ v. viewer_has_key key v ≡ false) d.viewers
        (λ r no. ground arith) (any_of-All (viewer_has_key key) d.viewers v);
}
