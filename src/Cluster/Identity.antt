-- ===== src/Cluster/Identity.antt =====
-- src/db.rs and src/cluster/raft/state_machine.rs: a delete names the row that it was accepted for.
use librtmp2_server.Base.{
  ℕ, ◌≡◌, refl, arith, not, ◌&&◌, Option, none, some, List, [], ◌∷◌, Text, text_eq, ◌==◌, any_of,
  keep, map, if-elim,
}
use librtmp2_server.Db.Tables.{
  StreamRow, Database, Fault, StreamDisableOutcome, disabled, missing, stale, has_id,
}
use librtmp2_server.Db.Streams.{stream_disable_expecting, disable_row, identity_matches}
use librtmp2_server.Cluster.Command.{BeginDeleteStream}
use librtmp2_server.Cluster.StateMachine.Handlers.{Io, begin_delete_stream, disable_reply}

-- The rows whose delete token is another one.
unfoldable pub other_rows : Text → List StreamRow → List StreamRow
other_rows token rs = keep (λ (r : StreamRow). not (r.delete_token == token)) rs

-- The rows with other tokens, the viewers and the owners are the same.
pub record SparesOthers (token : Text) (d d' : Database) : Type 0 where
  pub rows : other_rows token d'.streams ≡ other_rows token d.streams
  pub viewers : d'.viewers ≡ d.viewers
  pub owners : d'.owners ≡ d.owners

disable_row-others :
    (id : Text) (created : Option ℕ) (token : Text) (rs : List StreamRow)
    → other_rows token (map (disable_row id created (some token)) rs) ≡ other_rows token rs
unfolding other_rows keep disable_row identity_matches
disable_row-others id created token [] = refl
disable_row-others id created token (r ∷ rs) =
    ground (arith, disable_row-others id created token rs)

spared : (token : Text) (d : Database) → SparesOthers token d d
spared token d = record { rows = refl; viewers = refl; owners = refl }

disable-SparesOthers :
    (f : Fault) (id : Text) (created : Option ℕ) (token : Text) (d : Database)
    → SparesOthers token d (stream_disable_expecting f id created (some token) d).0
unfolding stream_disable_expecting
disable-SparesOthers f id created token d =
    if-elim (λ (x : Database × Option StreamDisableOutcome). SparesOthers token d x.0)
      (not f.statement) (λ e. spared token d)
      (λ e.
        if-elim (λ (x : Database × Option StreamDisableOutcome). SparesOthers token d x.0)
          (any_of (λ r. has_id id r && identity_matches created (some token) r) d.streams)
          (λ e. record {
            rows = disable_row-others id created token d.streams;
            viewers = refl;
            owners = refl;
          })
          (λ e.
            if-elim (λ (x : Database × Option StreamDisableOutcome). SparesOthers token d x.0)
              (not f.query) (λ e. spared token d)
              (λ e.
                if-elim (λ (x : Database × Option StreamDisableOutcome). SparesOthers token d x.0)
                  (any_of (has_id id) d.streams) (λ e. spared token d) (λ e. spared token d))))

reply-SparesOthers :
    (id token : Text) (d : Database) (x : Database × Option StreamDisableOutcome)
    → SparesOthers token d x.0
    → SparesOthers token d (disable_reply id x).db
unfolding disable_reply
reply-SparesOthers id token d (d', some disabled) h = h
reply-SparesOthers id token d (d', some missing) h = h
reply-SparesOthers id token d (d', some stale) h = h
reply-SparesOthers id token d (d', none) h = h

-- A begin-delete that names a delete token, whenever it is applied and whichever of its database
-- calls fail, leaves every stream row with another token as it is, in its place, and all viewers and
-- owners: also a row that has the stream id that the delete is for. So it disables no replacement.
pub begin_delete_stream-SparesOthers :
    (io : Io) (c : BeginDeleteStream) (token : Text) (d : Database)
    → c.expected_delete_token ≡ some token
    → SparesOthers token d (begin_delete_stream io c d).db
unfolding begin_delete_stream
begin_delete_stream-SparesOthers io c token d e =
    reply-SparesOthers c.id token d _
      (rw e (disable-SparesOthers (io 0) c.id c.expected_created_at token d))
