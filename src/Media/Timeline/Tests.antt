-- ===== src/Media/Timeline/Tests.antt =====
-- src/cluster/media/timeline.rs: a handoff, an encoder reset and a wrap-around.
use librtmp2_server.Base.{ℕ, ◌≡◌, refl, arith, List, [], ◌∷◌}
use librtmp2_server.Media.Timeline.{
  new, outputs, Chain, outputs-Chain, map_ts, enter_epoch, emit, anchor,
}

abbrev frames : List (ℕ × ℕ)
frames = (1, 1000) ∷ (1, 1040) ∷ (2, 7) ∷ (2, 27) ∷ (2, 0) ∷ (1, 5000) ∷ []

mapped : outputs frames new ≡ 1000 ∷ 1040 ∷ 1041 ∷ 1061 ∷ 1062 ∷ 1063 ∷ []
unfolding outputs map_ts enter_epoch emit anchor
mapped = refl

outputs-Chain_example : Chain 0 (outputs frames new)
outputs-Chain_example =
    outputs-Chain frames new
      (omega arith, (omega arith, (omega arith, (omega arith, (omega arith, (omega arith, tt))))))
      (record { offset = omega arith; last_out = omega arith })
