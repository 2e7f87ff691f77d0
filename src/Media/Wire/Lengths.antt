-- ===== src/Media/Wire/Lengths.antt =====
-- src/cluster/media/wire.rs: reading back what was written, below the level of messages, with a
-- budget that is never refused.
use librtmp2_server.Base.{
  ℕ, zero, suc, ◌-◌, ◌^◌, ◌≡◌, ◌≤◌, ◌<◌, refl, sym, ap, ◌∙◌, arith, min, true, Option, some, [],
  ◌∷◌, ◌++◌, append-nil, append_assoc, Text, length, length-append, if-elim, nat_eqb,
}
use librtmp2_server.Db.Tables.{ok}
use librtmp2_server.Media.Wire.Bytes.{from_be, from_be_on, be16, be32, be64, is_utf8}
use librtmp2_server.Media.Wire.Write.{and_then}
use librtmp2_server.Media.Wire.Read.{
  take_exact, Reading, read_exact_budgeted, read_chunks, read_vec, read_string, read_budget_chunk,
}

pub from_be-be16 : (n : ℕ) → n < 2 ^ 16 → from_be (be16 n) ≡ n
unfolding from_be_on
from_be-be16 n h = omega arith

pub from_be-be32 : (n : ℕ) → n < 2 ^ 32 → from_be (be32 n) ≡ n
unfolding from_be_on
from_be-be32 n h = omega arith

pub from_be-be64 : (n : ℕ) → n < 2 ^ 64 → from_be (be64 n) ≡ n
unfolding from_be_on
from_be-be64 n h = omega arith

take_exact-append : (n : ℕ) (xs ys : Text) → n ≡ length xs → take_exact n (xs ++ ys) ≡ some (xs, ys)
unfolding take_exact
take_exact-append zero [] ys e = refl
take_exact-append zero (x ∷ xs) ys e = ground arith
take_exact-append (suc n) [] ys e = ground arith
take_exact-append (suc n) (x ∷ xs) ys e = rw (take_exact-append n xs ys (omega arith)) refl

-- A list cut at `k`.
cut : (k : ℕ) (xs : Text) → k ≤ length xs → (p q : Text) × (xs ≡ p ++ q) × (length p ≡ k)
cut zero xs h = ([], xs, refl, refl)
cut (suc k) [] h = absurd (omega arith)
cut (suc k) (x ∷ xs) h =
    let (p, q, e, l) = cut k xs (omega arith) in (x ∷ p, q, ap (◌∷◌ x) e, omega arith)

module _ {B : Type 0} (grow : ℕ → B → B) where
  abbrev pub granted : ℕ → B → Option B
  granted n b = some (grow n b)

  -- The read takes `xs`, and leaves `ys` to come.
  abbrev pub Reads : {A : Type 0} → Reading granted A → A → Text → Type 0
  Reads r a ys = (b : B) × (r ≡ ok (a, (ys, b)))

  exact-Reads :
      (n : ℕ) (xs ys : Text) (b : B)
      → n ≡ length xs
      → read_exact_budgeted granted n (xs ++ ys, b) ≡ ok (xs, (ys, grow n b))
  unfolding read_exact_budgeted
  exact-Reads n xs ys b e = rw (take_exact-append n xs ys e) refl

  -- One more round, on the part `p` of the bytes.
  round-Reads :
      (fuel n step : ℕ) (p q xs ys buf : Text) (b : B)
      → xs ≡ p ++ q
      → length p ≡ step
      → Reads
          (read_chunks granted fuel (n - step) (buf ++ p) (q ++ ys, grow step b))
          ((buf ++ p) ++ q)
          ys
      → Reads
          (and_then
            (read_exact_budgeted granted step (xs ++ ys, b))
            (λ x. read_chunks granted fuel (n - step) (buf ++ x.0) x.1))
          (buf ++ xs)
          ys
  round-Reads fuel n step p q xs ys buf b joined l (b', e) = (
    b',
    ap
          (λ z.
            and_then (read_exact_budgeted granted step (z, b))
              (λ x. read_chunks granted fuel (n - step) (buf ++ x.0) x.1))
          (ap (λ z. z ++ ys) joined ∙ append_assoc p q ys)
        ∙ (ap (λ z. and_then z (λ x. read_chunks granted fuel (n - step) (buf ++ x.0) x.1))
              (exact-Reads step p (q ++ ys) b (sym l))
            ∙ (e
                ∙ ap (λ z. ok (z, (ys, b')))
                    (append_assoc buf p q ∙ ap (λ z. buf ++ z) (sym joined)))),
  )

  none_left :
      (xs ys buf : Text) (b : B)
      → length xs ≡ 0
      → Path (Reading granted Text) (ok (buf, (xs ++ ys, b))) (ok (buf ++ xs, (ys, b)))
  none_left [] ys buf b z = ap (λ z. ok (z, (ys, b))) (sym (append-nil buf))
  none_left (x ∷ xs) ys buf b z = ground arith

  chunks-Reads :
      (fuel n : ℕ) (xs ys buf : Text) (b : B)
      → n ≡ length xs
      → n ≤ fuel
      → Reads (read_chunks granted fuel n buf (xs ++ ys, b)) (buf ++ xs) ys
  unfolding read_chunks
  chunks-Reads zero n xs ys buf b e le = (b, none_left xs ys buf b (omega arith))
  chunks-Reads (suc fuel) n xs ys buf b e le =
      if-elim (λ r. Reads r (buf ++ xs) ys) (nat_eqb n 0)
        (λ z. (b, none_left xs ys buf b (ground arith)))
        (λ z.
          let (p, q, joined, l) = cut (min n read_budget_chunk) xs (ground arith) in
          round-Reads fuel n (min n read_budget_chunk) p q xs ys buf b joined l (
            chunks-Reads fuel (n - min n read_budget_chunk) q ys (buf ++ p)
              (grow (min n read_budget_chunk) b) (cut_rest p q joined l) (ground arith)))
    where
      cut_rest :
          (p q : Text)
          → xs ≡ p ++ q
          → length p ≡ min n read_budget_chunk
          → n - min n read_budget_chunk ≡ length q
      cut_rest p q joined l = omega (arith, length-append p q, ap length joined)

  pub vec-Reads : (xs ys : Text) (b : B) → Reads (read_vec granted (length xs) (xs ++ ys, b)) xs ys
  unfolding read_vec
  vec-Reads xs ys b = chunks-Reads (length xs) (length xs) xs ys [] b refl (omega arith)

  pub string-Reads :
      (xs ys : Text) (b : B)
      → is_utf8 xs ≡ true
      → Reads (read_string granted (length xs) (xs ++ ys, b)) xs ys
  unfolding read_string
  string-Reads xs ys b valid = let (b', e) = vec-Reads xs ys b in (b', rw (e, valid) refl)
