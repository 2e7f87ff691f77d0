-- ===== src/Db/Tables.antt =====
-- src/db.rs and src/keygen.rs: rows, tables and access keys. A table is the list of its rows. Of
-- the local session tables only the columns that these calls touch are kept. An `i64` time stamp is
-- compared for equality only, so it is a number. A `Fault` says which kinds of statement SQLite
-- carries out in a call, and with what error text; a statement that fails changes nothing.
use librtmp2_server.Base.{
  ℕ, zero, suc, ◌+◌, ◌-◌, ◌*◌, ◌%◌, ◌/◌, Bool, false, not, ◌&&◌, ◌||◌, Option, none, some, List, [],
  ◌∷◌, ◌++◌, Text, Map, length, any_of, if◌then◌else◌, ltb, leb, nat_eqb, text_eq, ◌==◌, u64_mod,
}
use Prim.Native.Nat.{bit_xor}

pub record Stream : Type 0 where
  pub id : Text
  pub name : Text
  pub app : Text
  pub publish_key : Text
  pub play_key : Text
  pub stats_key : Text
  pub enabled : Bool
  pub created_at : ℕ

-- A row of `streams`.
pub record StreamRow : Type 0 where
  pub stream : Stream
  pub pending_delete : Bool
  pub delete_token : Text

pub record StreamViewer : Type 0 where
  pub id : Text
  pub stream_id : Text
  pub name : Text
  pub play_key : Text
  pub enabled : Bool
  pub created_at : ℕ

pub record StreamOwner : Type 0 where
  pub stream_id : Text
  pub owner_node_id : ℕ
  pub epoch : ℕ
  pub acquired_at : ℕ

-- A row of `publishers` or `players`.
pub record Session : Type 0 where
  pub id : Text
  pub stream_id : Text
  pub viewer_id : Text
  pub active : Bool

pub record Database : Type 0 where
  pub settings : Map Text Text
  pub streams : List StreamRow
  pub viewers : List StreamViewer
  pub owners : List StreamOwner
  pub publishers : List Session
  pub players : List Session
  pub active_player_counts : Map Text ℕ
  pub unpersisted_player_counts : Map Text ℕ

-- `key_query` is the check whether a key is in use, behind the other queries of a call.
pub record Fault : Type 0 where
  pub query : Bool
  pub key_query : Bool
  pub statement : Bool
  pub message : Text

pub data StreamAddError : Type 0 where
  duplicate db : StreamAddError

pub data ViewerAddError : Type 0 where
  duplicate parent_unavailable db : ViewerAddError

pub data OwnerError : Type 0 where
  conflict not_found db : OwnerError

pub data StreamDisableOutcome : Type 0 where
  disabled missing stale : StreamDisableOutcome

pub data DbLookup {ℓ} (A : Type ℓ) : Type ℓ where
  found : A → DbLookup A
  absent failed : DbLookup A

-- `Result<T, E>`.
pub data Result {ℓ κ} (A : Type ℓ) (E : Type κ) : Type (ℓ ⊔ κ) where
  ok : A → Result A E
  err : E → Result A E

abbrev pub min_access_key_len : ℕ
min_access_key_len = 32

unfoldable pub is_ascii_alphanumeric : ℕ → Bool
is_ascii_alphanumeric c =
    (leb b'0' c && leb c b'9') || (leb b'A' c && leb c b'Z') || (leb b'a' c && leb c b'z')

unfoldable pub is_key_char : ℕ → Bool
is_key_char c = is_ascii_alphanumeric c || nat_eqb c b'.' || nat_eqb c b'_' || nat_eqb c b'-'

unfoldable pub starts_alphanumeric : Text → Bool
starts_alphanumeric [] = false
starts_alphanumeric (c ∷ _) = is_ascii_alphanumeric c

-- Outside ASCII no byte is a key character, so the test on bytes is the test on characters.
unfoldable pub is_valid_access_key : Text → Bool
is_valid_access_key value =
    not (ltb (length value) min_access_key_len || ltb 63 (length value))
    && (starts_alphanumeric value && not (any_of (λ c. not (is_key_char c)) value))

-- `legacy_delete_token`: two FNV-1a hashes, each printed as 16 hexadecimal digits.
unfoldable pub fnv1a64 : ℕ → Text → ℕ
fnv1a64 seed [] = seed
fnv1a64 seed (byte ∷ bytes) = fnv1a64 (bit_xor seed byte * 0x0000_0100_0000_01b3 % u64_mod) bytes

unfoldable pub hex_digit : ℕ → ℕ
hex_digit d = if ltb d 10 then b'0' + d else b'a' + (d - 10)

-- `{n:016x}`, at the given number of digits.
unfoldable pub hex : ℕ → ℕ → Text
hex zero n = []
hex (suc digits) n = hex digits (n / 16) ++ (hex_digit (n % 16) ∷ [])

unfoldable pub legacy_delete_token : Text → Text → Text
legacy_delete_token id publish_key =
    hex 16 (fnv1a64 (fnv1a64 0xcbf2_9ce4_8422_2325 id) publish_key)
    ++ hex 16 (fnv1a64 (fnv1a64 0x9e37_79b9_7f4a_7c15 id) publish_key)

-- Rows by key.
unfoldable pub has_id : Text → StreamRow → Bool
has_id id r = r.stream.id == id

unfoldable pub find_stream : Text → List StreamRow → Option StreamRow
find_stream id [] = none
find_stream id (r ∷ rs) = if has_id id r then some r else find_stream id rs

-- `publish_key=? OR play_key=? OR stats_key=?`
unfoldable pub stream_has_key : Text → StreamRow → Bool
stream_has_key key r =
    r.stream.publish_key == key || r.stream.play_key == key || r.stream.stats_key == key

unfoldable pub viewer_has_key : Text → StreamViewer → Bool
viewer_has_key key v = v.play_key == key

-- A query that fails counts as "not in use" (`unwrap_or(false)`).
unfoldable pub key_globally_in_use_locked : Fault → Text → Database → Bool
key_globally_in_use_locked fault key d =
    is_valid_access_key key
    && (fault.key_query
        && (any_of (stream_has_key key) d.streams || any_of (viewer_has_key key) d.viewers))

unfoldable pub stream_get : Fault → Text → Database → DbLookup Stream
stream_get fault id d =
    if fault.query
    then elim (find_stream id d.streams) [ none ↦ absent | some r ↦ found r.stream ]
    else failed
