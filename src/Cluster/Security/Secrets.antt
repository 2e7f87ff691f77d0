-- ===== src/Cluster/Security/Secrets.antt =====
-- The comparison of secrets.
use librtmp2_server.Base.{
  ◌≡◌, ◌↔◌, sym, arith, Bool, true, Text, length, if◌then◌else◌, nat_eqb, nat_eqb_iff, max,
  padded_diff, padded_diff-zero, padded_diff_same, same_of_lengths,
}

-- `u8::from(a.len() != b.len())`, and the loop over the longer one.
unfoldable pub secrets_equal : Text → Text → Bool
secrets_equal a b =
    nat_eqb
      (padded_diff (max (length a) (length b)) (if nat_eqb (length a) (length b) then 0 else 1) a b)
      0

-- Two secrets of any bytes pass as equal exactly if they are the same: a secret that is longer by
-- zero bytes does not, although the loop reads zero behind the end of the shorter one.
pub secrets_equal_iff : (a b : Text) → (secrets_equal a b ≡ true) ↔ (a ≡ b)
unfolding secrets_equal
secrets_equal_iff a b = (
  (λ h.
      let both = padded_diff-zero (max (length a) (length b)) _ a b ((nat_eqb_iff _ 0).0 h) in
      same_of_lengths (max (length a) (length b)) a b (ground (arith, both.0)) (omega arith)
        both.1),
  λ h. rw (sym h) (ground (arith, padded_diff_same (max (length a) (length a)) a)),
)
