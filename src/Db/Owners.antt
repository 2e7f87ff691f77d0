-- ===== src/Db/Owners.antt =====
-- src/db.rs: the calls on `stream_owners`. Epochs are stored as `i64`, so `epoch<=?` compares
-- signed values.
use librtmp2_server.Base.{
  ℕ, ◌+◌, ◌-◌, ◌%◌, ◌^◌, min, Bool, false, not, ◌&&◌, Option, none, some, List, [], ◌∷◌, ◌++◌, Text,
  any_of, keep, map, map_or, length, if◌then◌else◌, leb, nat_eqb, text_eq, ◌==◌, u64_mod,
}
use librtmp2_server.Db.Tables.{
  StreamOwner, Database, Fault, OwnerError, Result, ok, err, find_stream,
}

unfoldable pub owns : Text → StreamOwner → Bool
owns stream_id o = o.stream_id == stream_id

unfoldable pub find_owner : Text → List StreamOwner → Option StreamOwner
find_owner id [] = none
find_owner id (o ∷ os) = if owns id o then some o else find_owner id os

-- Present, enabled and not mid-delete.
unfoldable pub stream_available : Text → Database → Bool
stream_available id d =
    map_or (find_stream id d.streams) false (λ r. r.stream.enabled && not r.pending_delete)

unfoldable pub renew : Text → ℕ → ℕ → StreamOwner → StreamOwner
renew id epoch at o = if owns id o then record o { epoch = epoch; acquired_at = at } else o

-- Under an available stream: the row of another node stands in the way.
unfoldable pub acquire_row :
    Text → ℕ → ℕ → ℕ → Database → Option StreamOwner → Database × Result ℕ OwnerError
acquire_row id node epoch at d none = (
  record d {
    owners =
        d.owners
        ++ (record { stream_id = id; owner_node_id = node; epoch = epoch; acquired_at = at } ∷ []);
  },
  ok epoch,
)
acquire_row id node epoch at d (some o) =
    if nat_eqb o.owner_node_id node
    then (record d { owners = map (renew id epoch at) d.owners }, ok epoch)
    else (d, err OwnerError.conflict)

unfoldable pub stream_owner_acquire :
    Fault → Text → ℕ → ℕ → ℕ → Database → Database × Result ℕ OwnerError
stream_owner_acquire fault id node epoch at d =
    if not fault.query
    then (d, err OwnerError.db)
    else if not (stream_available id d)
    then (d, err OwnerError.not_found)
    else if not fault.statement
    then (
      d,
      map_or (find_owner id d.owners) (err OwnerError.db) (λ (o : StreamOwner).
          if nat_eqb o.owner_node_id node then err OwnerError.db else err OwnerError.conflict),
    )
    else acquire_row id node epoch at d (find_owner id d.owners)

unfoldable pub releases : Text → ℕ → StreamOwner → Bool
releases id epoch o = owns id o && nat_eqb o.epoch epoch

unfoldable pub stream_owner_release :
    Fault → Text → ℕ → Database → Database × Result Bool OwnerError
stream_owner_release fault id epoch d =
    if fault.statement
    then (
      record d { owners = keep (λ o. not (releases id epoch o)) d.owners },
      ok (any_of (releases id epoch) d.owners),
    )
    else (d, err OwnerError.db)

-- `a <= b` for the `i64` that two `u64` stand for.
unfoldable pub i64_leb : ℕ → ℕ → Bool
i64_leb a b = leb ((a + 2 ^ 63) % u64_mod) ((b + 2 ^ 63) % u64_mod)

-- `i64::try_from(max_epoch).unwrap_or(i64::MAX)`.
unfoldable pub clamp_epoch : ℕ → ℕ
clamp_epoch max_epoch = min max_epoch (2 ^ 63 - 1)

unfoldable pub releases_node : ℕ → ℕ → StreamOwner → Bool
releases_node node max_epoch o =
    nat_eqb o.owner_node_id node && i64_leb o.epoch (clamp_epoch max_epoch)

unfoldable pub stream_owners_release_for_node :
    Fault → ℕ → ℕ → Database → Database × Result ℕ OwnerError
stream_owners_release_for_node fault node max_epoch d =
    if fault.statement
    then (
      record d { owners = keep (λ o. not (releases_node node max_epoch o)) d.owners },
      ok (length (keep (releases_node node max_epoch) d.owners)),
    )
    else (d, err OwnerError.db)
