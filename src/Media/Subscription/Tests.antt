-- ===== src/Media/Subscription/Tests.antt =====
-- src/cluster/media/subscription.rs: two viewers and one of them gone, and the theorems there.
use librtmp2_server.Base.{
  ◌≡◌, refl, arith, true, false, List, [], ◌∷◌, length, lookup, insert, remove, any_of, text_eqb,
  Text,
}
use librtmp2_server.Media.Subscription.Inbound
use librtmp2_server.Media.Subscription.Inbound.{
  Key, Call, adding, removing, Answer, flag, failed, run_calls,
}
use librtmp2_server.Media.Subscription.Refs.{refs, IsCounted, Small, spec_calls, run_calls-Refines}
use librtmp2_server.Media.Subscription.Outbound
use librtmp2_server.Media.Subscription.Owned.{held, IsOwned, Promise}
use librtmp2_server.Media.Subscription.Promises.{run_call-Promise}

abbrev key : Key
key = (2, (b'l' ∷ [], b's' ∷ []))

abbrev calls : List Call
calls =
    adding key true
    ∷ adding key true
    ∷ adding key false
    ∷ removing key
    ∷ removing key
    ∷ removing key
    ∷ []

counted_down :
    (run_calls calls Inbound.new).1
    ≡ flag true ∷ flag false ∷ failed ∷ flag false ∷ flag true ∷ flag false ∷ []
unfolding run_calls Inbound.run_call Inbound.add_with Inbound.as_answer Inbound.count_up
    Inbound.remove Inbound.remove_at lookup insert remove text_eqb
counted_down = refl

new-IsCounted : IsCounted Inbound.new
unfolding lookup
new-IsCounted = record { distinct = tt; positive = λ k c e. absurd (ground arith) }

new-Small : Small (length calls) (refs Inbound.new)
unfolding lookup
new-Small k = omega arith

run_calls-Refines_example :
    (refs (run_calls calls Inbound.new).0 ≡ (spec_calls calls (refs Inbound.new)).0)
    × ((run_calls calls Inbound.new).1 ≡ (spec_calls calls (refs Inbound.new)).1)
    × IsCounted (run_calls calls Inbound.new).0
run_calls-Refines_example = run_calls-Refines calls Inbound.new new-IsCounted new-Small

-- One session, which subscribes twice and is wired.
abbrev viewer : Text
viewer = b'p' ∷ []

abbrev table : Outbound.OutboundSubscriptions
table = (key, record { owners = viewer ∷ []; wired = true }) ∷ []

subscribed_twice : (Outbound.add viewer key table).1 ≡ false
unfolding Outbound.add Outbound.entry_or_default Outbound.contains Outbound.with_owner any_of lookup
    text_eqb
subscribed_twice = refl

table-IsOwned : IsOwned table
unfolding lookup Outbound.contains any_of
table-IsOwned = record { distinct = (refl, tt); good = λ k e there. ground arith }

run_call-Promise_example :
    Promise
      (Outbound.removing viewer key)
      (held table)
      (Outbound.run_call (Outbound.removing viewer key) table).1
      (Outbound.run_call (Outbound.removing viewer key) table).0
    × IsOwned (Outbound.run_call (Outbound.removing viewer key) table).0
run_call-Promise_example = run_call-Promise (Outbound.removing viewer key) table table-IsOwned
