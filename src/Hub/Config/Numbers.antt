-- ===== src/Hub/Config/Numbers.antt =====
-- The numbers among the settings of hub/config.go.
use go_dcpp.Hub.Config.{
  int, uint, Conf, Convert, zlib_level, resolve, is_ignored, has_key, config_ignored, to_int64,
  to_uint64, clamp_level, set_map, set_plain, set_int, set_uint, as_int, get_int,
}
use go_dcpp.Base.{
  ◌^◌, ◌<◌, ◌≡◌, refl, false, not, ◌&&◌, ◌||◌, some, arith, if◌then◌else◌, ◌==◌, nat_eq, ==_iff,
  list_eq, Bytes, lookup-insert, ℤ, pos, negsuc,
}

-- z is an int64
abbrev pub IsInt64 : ℤ → Type 0
IsInt64 (pos n) = n < 2 ^ 63
IsInt64 (negsuc n) = n < 2 ^ 63

to_int64-to_uint64 : (z : ℤ) → IsInt64 z → to_int64 (to_uint64 z) ≡ z
unfolding to_int64 to_uint64
to_int64-to_uint64 (pos n) h = ground arith
to_int64-to_uint64 (negsuc n) h = ground arith

level_not_ignored : is_ignored zlib_level ≡ false
unfolding is_ignored has_key config_ignored
level_not_ignored = refl

module _ {ℓ} {F : Type ℓ} (s : Convert F) where
  -- After `setConfigInt` at a key that is not ignored, `GetConfigInt` at that key or an alias of it
  -- returns the number, or at zlib.level the number brought into -1 to 9; at any other key it returns
  -- what it did. At a key that is ignored `setConfigInt` changes nothing.
  pub get_int-set_int :
      (j k : Bytes) (v : ℤ) (c : Conf F)
      → get_int s j (set_int k v c) ≡ (
          if resolve j == resolve k && not (is_ignored (resolve k))
          then some (if resolve k == zlib_level then clamp_level v else v)
          else get_int s j c)
  unfolding get_int set_int set_map as_int
  get_int-set_int j k v c = ground (
    arith,
    lookup-insert (resolve k) (resolve j) (int v) c.m,
    ==_iff (resolve k) (resolve j),
    ==_iff (resolve j) (resolve k),
    ==_iff (resolve j) zlib_level,
    ==_iff (resolve k) zlib_level,
  )

  -- After `setConfigUint` of an int64, as a uint64, at a key that is not ignored, `GetConfigInt` at
  -- that key or an alias returns the int64, unless the key is zlib.level, where `setConfigUint` does
  -- not change what `GetConfigInt` returns; nor does it at any other key.
  pub get_int-set_uint :
      (j k : Bytes) (z : ℤ) (c : Conf F)
      → IsInt64 z
      → get_int s j (set_uint k (to_uint64 z) c) ≡ (
          if resolve j == resolve k && not (is_ignored (resolve k) || resolve k == zlib_level)
          then some z
          else get_int s j c)
  unfolding get_int set_uint set_plain set_map as_int
  get_int-set_uint j k z c h = ground (
    arith,
    lookup-insert (resolve k) (resolve j) (uint (to_uint64 z)) c.m,
    ==_iff (resolve k) (resolve j),
    ==_iff (resolve j) (resolve k),
    ==_iff (resolve j) zlib_level,
    ==_iff (resolve k) zlib_level,
    to_int64-to_uint64 z h,
  )
