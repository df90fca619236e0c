-- ===== src/Hub/Database/Bans.antt =====
-- The bans and the profiles in the tables of hub/hubdb/hubdb.go. A deletion by a list of keys deletes
-- each of them. `marshal` is json.Marshal, and `unmarshal` is json.Unmarshal with a map, which is not a
-- pointer, as its target.
pub mod Kept
pub mod Restart
mod Tests
use go_dcpp.Hub.Bans.{BanKey, Ban}
use go_dcpp.Hub.Profiles as Profiles
use go_dcpp.Hub.Users.{Error, bad_format, Result, ok, err}
use go_dcpp.Hub.Database.{Value, string, bytes, time, bool, Data, Table, Io, read_tx, write_tx}
use go_dcpp.Base.{Option, none, some, List, [], ◌∷◌, Bytes, Map}

-- `decodeBan`
pub decode_ban : Value → Data → Result Ban
decode_ban (bytes k) (bool hard ∷ time until ∷ string reason ∷ []) =
    ok (record { key = k; hard = hard; until = until; reason = reason })
decode_ban k d = err bad_format

-- the data of a ban, as `PutBans` writes it
pub encode_ban : Ban → Data
encode_ban b = bool b.hard ∷ time b.until ∷ string b.reason ∷ []

module _ (B : Table) where
  -- if it.Next(ctx) { b, err := decodeBan(it.Key(), it.Data()) ... }
  first_ban : List (Value × Data) → Result (List Ban)
  first_ban [] = ok []
  first_ban ((k, d) ∷ rows) = elim (decode_ban k d) [ err e ↦ err e | ok b ↦ ok (b ∷ []) ]

  -- `ListBans`
  pub list_bans : Io → B.State → Result (List Ban)
  unfolding first_ban
  list_bans io s = read_tx io (λ t. first_ban (B.scan t)) s

  found : Result Ban → Result (Option Ban)
  found (err e) = err e
  found (ok b) = ok (some b)

  -- `GetBan`
  pub get_ban : Io → BanKey → B.State → Result (Option Ban)
  unfolding first_ban found
  get_ban io k s =
      read_tx io
        (λ t. elim (B.get (bytes k) t) [
          | none ↦ ok none
          | some d ↦ elim (first_ban (B.scan t)) [
            | err e ↦ err e
            | ok l ↦ found (decode_ban (bytes k) d)
          ]
        ])
        s

  put_each : List Ban → B.State → B.State
  put_each [] s = s
  put_each (b ∷ bans) s = put_each bans (B.upsert (bytes b.key) (encode_ban b) s)

  -- `PutBans`
  pub put_bans : Io → List Ban → B.State → B.State × Result (Unit {0})
  unfolding put_each
  put_bans io bans s = write_tx io (λ t. ok (some (put_each bans t))) s

  del_each : List BanKey → B.State → B.State
  del_each [] s = s
  del_each (k ∷ keys) s = del_each keys (B.delete (bytes k) s)

  -- `DelBans`
  pub del_bans : Io → List BanKey → B.State → B.State × Result (Unit {0})
  unfolding del_each
  del_bans io [] s = (s, ok tt)
  del_bans io (k ∷ keys) s = write_tx io (λ t. ok (some (del_each (k ∷ keys) t))) s

  -- `ClearBans`
  pub clear_bans : Io → B.State → B.State × Result (Unit {0})
  clear_bans io s = write_tx io (λ t. ok (some (B.clear t))) s

module _ (P : Table) (marshal : Map Bytes Profiles.Value → Option Bytes)
    (unmarshal : Bytes → Option (Map Bytes Profiles.Value)) where
  -- the data of a profile; more fields than one are ignored, and none does not occur
  decode_profile : Data → Result (Option (Map Bytes Profiles.Value))
  decode_profile (string s ∷ rest) = elim (unmarshal s) [
    | none ↦ err bad_format
    | some m ↦ ok (some m)
  ]
  decode_profile d = err bad_format

  -- `GetProfile`
  pub get_profile : Io → Bytes → P.State → Result (Option (Map Bytes Profiles.Value))
  unfolding decode_profile
  get_profile io id s =
      read_tx io (λ t. elim (P.get (string id) t) [ none ↦ ok none | some d ↦ decode_profile d ]) s

  -- `PutProfile`
  pub put_profile : Io → Bytes → Map Bytes Profiles.Value → P.State → P.State × Result (Unit {0})
  put_profile io id m s = elim (marshal m) [
    | none ↦ (s, err bad_format)
    | some text ↦ write_tx io (λ t. ok (some (P.upsert (string id) (string text ∷ []) t))) s
  ]

  -- `DelProfile`
  pub del_profile : Io → Bytes → P.State → P.State × Result (Unit {0})
  del_profile io id s = write_tx io (λ t. ok (some (P.delete (string id) t))) s

  profile_ids : List (Value × Data) → Result (List Bytes)
  profile_ids [] = ok []
  profile_ids ((string id, d) ∷ rows) = elim (profile_ids rows) [
    | err e ↦ err e
    | ok ids ↦ ok (id ∷ ids)
  ]
  profile_ids ((k, d) ∷ rows) = err bad_format

  -- `ListProfiles`
  pub list_profiles : Io → P.State → Result (List Bytes)
  unfolding profile_ids
  list_profiles io s = read_tx io (λ t. profile_ids (P.scan t)) s
