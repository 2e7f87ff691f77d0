-- ===== src/Media/Wire/Took.antt =====
-- src/cluster/media/wire.rs: how many bytes the reads below the level of messages consume.
use librtmp2_server.Base.{
  ℕ, zero, suc, ◌+◌, ◌-◌, ◌≡◌, ◌≤◌, arith, min, Option, none, some, [], ◌∷◌, ◌++◌, Text, length,
  map_or, if-elim, subst, nat_eqb,
}
use librtmp2_server.Db.Tables.{Result, ok, err}
use librtmp2_server.Media.Wire.Bytes
use librtmp2_server.Media.Wire.Bytes.{WireError, from_be, byte_at, slice, is_utf8}
use librtmp2_server.Media.Wire.Write.{and_then}
use librtmp2_server.Media.Wire.Read
use librtmp2_server.Media.Wire.Read.{take_exact, Reading, read_budget_chunk, read_frame}

-- What a read has consumed, if it has not failed.
abbrev pub After :
    {A : Type 0} {B : Type 0} → (A → Text → Type 0) → Result (A × (Text × B)) WireError → Type 0
After P (ok x) = P x.0 x.1.0
After P (err e) = Unit

abbrev pushed : ℕ → Option (Text × Text) → Option (Text × Text)
pushed b o = map_or o none (λ x. some (b ∷ x.0, x.1))

module _ {B : Type 0} (reserve_body : ℕ → B → Option B) where
  -- `n` bytes have been read from `bs`.
  abbrev pub Took : {A : Type 0} → ℕ → Text → Reading reserve_body A → Type 0
  Took n bs r = After (λ a rest. length bs ≡ n + length rest) r

  -- One read after another.
  pub and_then-Took :
      {A C : Type 0} (n m : ℕ) (bs : Text) (r : Reading reserve_body A)
      (f : A × (Text × B) → Reading reserve_body C)
      → Took n bs r
      → ((x : A × (Text × B)) → Took m x.1.0 (f x))
      → Took (n + m) bs (and_then r f)
  and_then-Took {C = C} n m bs (err e) f h k = tt
  and_then-Took {C = C} n m bs (ok x) f h k = go (f x) (k x)
    where
      go : (y : Reading reserve_body C) → Took m x.1.0 y → Took (n + m) bs y
      go (ok y) l = omega arith
      go (err e) l = tt

  take_exact-Took :
      (n : ℕ) (bs : Text) → map_or (take_exact n bs) Unit (λ x. length bs ≡ n + length x.1)
  unfolding take_exact
  take_exact-Took zero bs = omega arith
  take_exact-Took (suc n) [] = tt
  take_exact-Took (suc n) (b ∷ bs) = go (take_exact n bs) (take_exact-Took n bs)
    where
      go :
          (o : Option (Text × Text))
          → map_or o Unit (λ x. length bs ≡ n + length x.1)
          → map_or (pushed b o) Unit (λ x. suc (length bs) ≡ suc n + length x.1)
      go none h = tt
      go (some x) h = omega arith

  pub exact-Took : (n : ℕ) (s : Text × B) → Took n s.0 (Read.read_exact_budgeted reserve_body n s)
  unfolding Read.read_exact_budgeted
  exact-Took n (bs, b) = go (reserve_body n b) (take_exact n bs) (take_exact-Took n bs)
    where
      go :
          (g : Option B) (o : Option (Text × Text))
          → map_or o Unit (λ x. length bs ≡ n + length x.1)
          → Took n bs (
              map_or g
                (err Bytes.budget_exceeded)
                (λ b'. map_or o (err Bytes.unexpected_eof) (λ x. ok (x.0, (x.1, b')))))
      go none o h = tt
      go (some b') none h = tt
      go (some b') (some x) h = h

  chunks-Took :
      (fuel n : ℕ) (buf : Text) (s : Text × B)
      → n ≤ fuel
      → Took n s.0 (Read.read_chunks reserve_body fuel n buf s)
  unfolding Read.read_chunks
  chunks-Took zero n buf s le = omega arith
  chunks-Took (suc fuel) n buf s le =
      if-elim (Took n s.0) (nat_eqb n 0) (λ e. ground arith)
        (λ e.
          let step = min n read_budget_chunk in
          subst
            (λ k. Took k s.0 (
              and_then (Read.read_exact_budgeted reserve_body step s)
                (λ x. Read.read_chunks reserve_body fuel (n - step) (buf ++ x.0) x.1)))
            (omega arith)
            (and_then-Took step (n - step) s.0 _ _ (exact-Took step s)
              (λ x. chunks-Took fuel (n - step) (buf ++ x.0) x.1 (ground arith))))

  pub vec-Took : (n : ℕ) (s : Text × B) → Took n s.0 (Read.read_vec reserve_body n s)
  unfolding Read.read_vec
  vec-Took n s = chunks-Took n n [] s (omega arith)

  -- A read whose result is only checked.
  pub and_then-Checked :
      {A C : Type 0} (n : ℕ) (bs : Text) (r : Reading reserve_body A)
      (f : A × (Text × B) → Reading reserve_body C)
      → Took n bs r
      → ((x : A × (Text × B)) → Took 0 x.1.0 (f x))
      → Took n bs (and_then r f)
  and_then-Checked n bs r f h k =
      subst (λ m. Took m bs (and_then r f)) (omega arith) (and_then-Took n 0 bs r f h k)

  pub string-Took : (n : ℕ) (s : Text × B) → Took n s.0 (Read.read_string reserve_body n s)
  unfolding Read.read_string
  string-Took n s =
      and_then-Checked n s.0 _ _ (vec-Took n s)
        (λ x. if-elim (Took 0 x.1.0) (is_utf8 x.0) (λ e. omega arith) (λ e. tt))
