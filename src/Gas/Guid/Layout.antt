-- ===== src/Gas/Guid/Layout.antt =====
-- The layout of a GUID: packing and unpacking its three fields.
use arts.Prelude.{ℕ, ◌+◌, ◌^◌, ◌<◌, ◌≡◌, arith, none, some}
use arts.Gas.Guid.{guid_make, get_key, get_rank, get_type, from_index, index_from}

-- A GUID packed from fields of the right widths unpacks to the same type, rank and key.
pub get-guid_make :
    (type rank key : ℕ)
    → type < 2 ^ 8
    → rank < 2 ^ 16
    → key < 2 ^ 40
    → (get_type (guid_make type rank key) ≡ type)
      × (get_rank (guid_make type rank key) ≡ rank)
      × (get_key (guid_make type rank key) ≡ key)
unfolding guid_make get_type get_rank get_key
get-guid_make type rank key ht hr hk = omega arith

-- Every 64-bit number is the GUID of its own fields, so the fields determine the GUID.
pub guid_make-get : (g : ℕ) → g < 2 ^ 64 → guid_make (get_type g) (get_rank g) (get_key g) ≡ g
unfolding guid_make get_type get_rank get_key
guid_make-get g h = omega arith

-- While the key stays below 2^40, stepping to index `i` of a range adds `i` to the key and keeps
-- type and rank.
pub get-from_index :
    (type rank key i : ℕ)
    → type < 2 ^ 8
    → rank < 2 ^ 16
    → key + i < 2 ^ 40
    → from_index (guid_make type rank key) i ≡ guid_make type rank (key + i)
unfolding guid_make from_index
get-from_index type rank key i ht hr hk = omega arith

-- `arts_guid_index_from` inverts `arts_guid_from_index` on every range whose keys fit 40 bits, for
-- indices that fit an `int`.
pub index_from-from_index :
    (type rank key i : ℕ)
    → type < 2 ^ 8
    → rank < 2 ^ 16
    → key + i < 2 ^ 40
    → i < 2 ^ 31
    → index_from (guid_make type rank key) (from_index (guid_make type rank key) i) ≡ some i
unfolding guid_make from_index index_from get_type get_rank get_key
index_from-from_index type rank key i ht hr hk hi = ground arith

-- A GUID before the start of the range has no index in it.
pub index_from-before :
    (type rank key below : ℕ)
    → type < 2 ^ 8
    → rank < 2 ^ 16
    → key < 2 ^ 40
    → below < key
    → index_from (guid_make type rank key) (guid_make type rank below) ≡ none
unfolding guid_make index_from get_type get_rank get_key
index_from-before type rank key below ht hr hk hb = ground arith
