-- ===== src/Media/Ownership/Tests.antt =====
-- src/cluster/media/ownership.rs: a delayed release, and the theorem at a restart.
use librtmp2_server.Base.{◌≡◌, refl, false, List, [], ◌∷◌, lookup, insert, text_eqb}
use librtmp2_server.Db.Tables.{StreamOwner}
use librtmp2_server.Media.Ownership
use librtmp2_server.Media.Ownership.{
  new, set, clear_if_epoch, Ahead, run_call, hydrating, run_call-Ahead,
}

-- A release of an epoch that has been superseded clears nothing.
late_release :
    (clear_if_epoch (b's' ∷ []) 5 (set (b's' ∷ []) 2 9 (set (b's' ∷ []) 1 5 new))).1 ≡ false
unfolding clear_if_epoch set Ownership.has_epoch Ownership.advance_past lookup insert text_eqb
late_release = refl

abbrev rows : List StreamOwner
rows = record { stream_id = b's' ∷ []; owner_node_id = 3; epoch = 41; acquired_at = 0 } ∷ []

run_call-Ahead_example : Ahead (run_call (hydrating rows) new)
run_call-Ahead_example = run_call-Ahead (hydrating rows) new tt tt
