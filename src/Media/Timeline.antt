-- ===== src/Media/Timeline.antt =====
-- src/cluster/media/timeline.rs: the time stamps that players see across failovers.
use librtmp2_server.Base.{
  ℕ, ◌+◌, ◌-◌, ◌%◌, ◌^◌, ◌≡◌, ◌≤◌, ◌<◌, ◌⊎◌, inl, inr, refl, sym, subst, All, arith, Bool, true,
  false, ◌&&◌, Option, none, some, List, [], ◌∷◌, map_or, is_some, if◌then◌else◌, if-elim, ltb,
  nat_eqb, u32_mod, wrapping_add32, wrapping_sub32,
}
mod Tests

pub record TimelineRemapper : Type 0 where
  pub offset : ℕ
  pub last_out : ℕ
  pub current_epoch : Option ℕ
  pub prev_epoch_last_in : ℕ

abbrev pub new : TimelineRemapper
new = record { offset = 0; last_out = 0; current_epoch = none; prev_epoch_last_in = 0 }

-- The offset under which `ts_in` comes out one after `last_out`.
unfoldable pub anchor : ℕ → ℕ → ℕ
anchor last_out ts_in = wrapping_sub32 (wrapping_add32 last_out 1) ts_in

-- The first step of `map`: the state for the epoch of the frame.
unfoldable pub enter_epoch : ℕ → ℕ → TimelineRemapper → TimelineRemapper
enter_epoch epoch ts_in t =
    if map_or t.current_epoch false (λ e. nat_eqb e epoch)
    then record t { prev_epoch_last_in = ts_in }
    else record t {
      offset = if is_some t.current_epoch then anchor t.last_out ts_in else 0;
      current_epoch = some epoch;
      prev_epoch_last_in = ts_in;
    }

-- The second step: a time stamp that would go back is re-anchored.
unfoldable pub emit : ℕ → TimelineRemapper → TimelineRemapper × ℕ
emit ts_in t =
    let out = wrapping_add32 ts_in t.offset in
    let offset = anchor t.last_out ts_in in
    let out2 = wrapping_add32 ts_in offset in
    if is_some t.current_epoch && ltb out t.last_out
    then (record t { offset = offset; last_out = out2 }, out2)
    else (record t { last_out = out }, out)

unfoldable pub map_ts : ℕ → ℕ → TimelineRemapper → TimelineRemapper × ℕ
map_ts epoch ts_in t = emit ts_in (enter_epoch epoch ts_in t)

-- The fields are `u32`.
pub record IsU32 (t : TimelineRemapper) : Type 0 where
  pub offset : t.offset < u32_mod
  pub last_out : t.last_out < u32_mod

-- `out` follows `last`: it is not below it, or it is zero after the largest `u32`.
abbrev pub Follows : ℕ → ℕ → Type 0
Follows last out = last ≤ out ⊎ ((last ≡ u32_mod - 1) × (out ≡ 0))

pub anchor-next :
    (last ts : ℕ)
    → last < u32_mod
    → ts < u32_mod
    → wrapping_add32 ts (anchor last ts) ≡ (last + 1) % u32_mod
unfolding anchor
anchor-next last ts l t = omega arith

anchor-small : (last ts : ℕ) → anchor last ts < u32_mod
unfolding anchor
anchor-small last ts = omega arith

-- What a step leaves: the output is a `u32`, recorded as the last one, and follows the one before.
pub record Step (last : ℕ) (r : TimelineRemapper × ℕ) : Type 0 where
  pub fields : IsU32 r.0
  pub recorded : r.0.last_out ≡ r.1
  pub follows : Follows last r.1

next-Follows : (last : ℕ) → last < u32_mod → Follows last ((last + 1) % u32_mod)
next-Follows last l = ground arith

emit-Step :
    (ts : ℕ) (t : TimelineRemapper)
    → ts < u32_mod
    → IsU32 t
    → is_some t.current_epoch ≡ true
    → Step t.last_out (emit ts t)
unfolding emit
emit-Step ts t u h s =
    if-elim (Step t.last_out)
      (is_some t.current_epoch && ltb (wrapping_add32 ts t.offset) t.last_out)
      (λ e. record {
        fields = record { offset = anchor-small t.last_out ts; last_out = omega arith };
        recorded = refl;
        follows =
            subst (Follows t.last_out) (sym (anchor-next t.last_out ts h.last_out u))
              (next-Follows t.last_out h.last_out);
      })
      (λ e. record {
        fields = record { offset = h.offset; last_out = omega arith };
        recorded = refl;
        follows = inl (ground arith);
      })

-- What `enter_epoch` leaves for `emit`.
record Entered (last : ℕ) (t : TimelineRemapper) : Type 0 where
  pub fields : IsU32 t
  pub same_last : t.last_out ≡ last
  pub epoch_known : is_some t.current_epoch ≡ true

new_offset-small : (known : Bool) (last ts : ℕ) → (if known then anchor last ts else 0) < u32_mod
new_offset-small true last ts = anchor-small last ts
new_offset-small false last ts = omega arith

enter_epoch-Entered :
    (epoch ts : ℕ) (t : TimelineRemapper) → IsU32 t → Entered t.last_out (enter_epoch epoch ts t)
unfolding enter_epoch
enter_epoch-Entered epoch ts t h =
    if-elim (Entered t.last_out) (map_or t.current_epoch false (λ e. nat_eqb e epoch))
      (λ e. record {
        fields = record { offset = h.offset; last_out = h.last_out };
        same_last = refl;
        epoch_known = known t.current_epoch e;
      })
      (λ e. record {
        fields = record {
          offset = new_offset-small (is_some t.current_epoch) t.last_out ts;
          last_out = h.last_out;
        };
        same_last = refl;
        epoch_known = refl;
      })
  where
    known : (o : Option ℕ) → map_or o false (λ e. nat_eqb e epoch) ≡ true → is_some o ≡ true
    known none e = e
    known (some n) e = refl

map_ts-Step :
    (epoch ts : ℕ) (t : TimelineRemapper)
    → ts < u32_mod
    → IsU32 t
    → Step t.last_out (map_ts epoch ts t)
unfolding map_ts
map_ts-Step epoch ts t u h =
    let en = enter_epoch-Entered epoch ts t h in
    subst (λ l. Step l (map_ts epoch ts t)) en.same_last
      (emit-Step ts (enter_epoch epoch ts t) u en.fields en.epoch_known)

-- Frames as pairs of an epoch and a time stamp, and the time stamps that come out.
unfoldable pub outputs : List (ℕ × ℕ) → TimelineRemapper → List ℕ
outputs [] t = []
outputs (f ∷ fs) t = (map_ts f.0 f.1 t).1 ∷ outputs fs (map_ts f.0 f.1 t).0

abbrev pub Chain : ℕ → List ℕ → Type 0
Chain last [] = Unit
Chain last (out ∷ outs) = Follows last out × Chain out outs

-- Whatever epochs and `u32` time stamps the frames have, in whatever order: no time stamp that
-- comes out is below the one before it, except that zero follows the largest `u32`.
pub outputs-Chain :
    (fs : List (ℕ × ℕ)) (t : TimelineRemapper)
    → All (λ (f : ℕ × ℕ). f.1 < u32_mod) fs
    → IsU32 t
    → Chain t.last_out (outputs fs t)
unfolding outputs
outputs-Chain [] t u h = tt
outputs-Chain (f ∷ fs) t u h =
    let st = map_ts-Step f.0 f.1 t u.0 h in
    (
      st.follows,
      subst (λ l. Chain l (outputs fs (map_ts f.0 f.1 t).0)) st.recorded
          (outputs-Chain fs (map_ts f.0 f.1 t).0 u.1 st.fields),
    )
