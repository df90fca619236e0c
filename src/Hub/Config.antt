-- ===== src/Hub/Config.antt =====
-- The settings of the hub: hub/config.go, with the setters of hub/hub.go that it calls. The type of
-- the floats and what package strconv, fmt.Sprint and Go's conversions of floats do are parameters.
-- An int64 is a ℤ, a uint64 an ℕ. Each call runs whole, under the lock that it takes. That a new
-- topic is sent to the peers is left out.
pub mod Lookup
pub mod Numbers
pub mod Merge
mod Tests
use mathlib.Core.Option
use go_dcpp.Base.{
  ℕ, ◌-◌, ◌^◌, Bool, true, false, not, ◌||◌, Option, none, some, List, [], ◌∷◌, ◌++◌, map, ltb,
  if◌then◌else◌, ◌==◌, nat_eq, list_eq, Bytes, codes, Map, lookup, insert, ℤ, pos, negsuc,
}

pub data Value {ℓ} (F : Type ℓ) : Type ℓ where
  boolean : Bool → Value F
  text : Bytes → Value F
  int : ℤ → Value F
  uint : ℕ → Value F
  float : F → Value F

-- `h.conf` and `h.zlib`
pub record Conf {ℓ} (F : Type ℓ) : Type ℓ where
  pub name : Bytes
  pub desc : Bytes
  pub topic : Bytes
  pub motd : Bytes
  pub owner : Bytes
  pub website : Bytes
  pub email : Bytes
  pub level : ℤ
  pub m : Map Bytes (Value F)

-- What the getters take from the standard library; a failed parse gives what strconv gives with the
-- error, which the code drops.
pub record Convert {ℓ} (F : Type ℓ) : Type ℓ where
  pub parse_bool : Bytes → Bool
  pub parse_int : Bytes → ℤ
  pub parse_uint : Bytes → ℕ
  pub sprint : Value F → Bytes
  pub nonzero : F → Bool
  pub float_int : F → ℤ
  pub float_uint : F → ℕ

abbrev pub hub_name : Bytes
hub_name = codes "hub.name"

abbrev pub hub_desc : Bytes
hub_desc = codes "hub.desc"

abbrev pub hub_topic : Bytes
hub_topic = codes "hub.topic"

abbrev pub hub_owner : Bytes
hub_owner = codes "hub.owner"

abbrev pub hub_website : Bytes
hub_website = codes "hub.website"

abbrev pub hub_email : Bytes
hub_email = codes "hub.email"

abbrev pub hub_motd : Bytes
hub_motd = codes "hub.motd"

abbrev pub zlib_level : Bytes
zlib_level = codes "zlib.level"

-- `configAliases`
config_aliases : Map Bytes Bytes
config_aliases =
    (codes "name", hub_name)
    ∷ (codes "desc", hub_desc)
    ∷ (codes "topic", hub_topic)
    ∷ (codes "owner", hub_owner)
    ∷ (codes "website", hub_website)
    ∷ (codes "email", hub_email)
    ∷ (codes "motd", hub_motd)
    ∷ []

-- if alias, ok := configAliases[key]; ok { key = alias }
pub resolve : Bytes → Bytes
resolve key = elim (lookup key config_aliases) [ none ↦ key | some alias ↦ alias ]

has_key : Bytes → List Bytes → Bool
has_key key [] = false
has_key key (k ∷ l) = key == k || has_key key l

-- `configIgnored`
config_ignored : List Bytes
config_ignored = map codes (
    "chat.encoding" ∷ "chat.log.join" ∷ "chat.log.max" ∷ "database.path" ∷ "database.type"
    ∷ "plugins.path" ∷ "serve.host" ∷ "serve.port" ∷ "serve.tls.cert" ∷ "serve.tls.key" ∷ [])

pub is_ignored : Bytes → Bool
is_ignored key = has_key key config_ignored

-- the cases of `switch key`
pub data Field : Type 0 where
  name_field desc_field topic_field motd_field owner_field website_field email_field : Field
  other_field : Field

pub field_of : Bytes → Field
field_of key =
    if key == hub_name
    then name_field
    else if key == hub_desc
    then desc_field
    else if key == hub_topic
    then topic_field
    else if key == hub_motd
    then motd_field
    else if key == hub_owner
    then owner_field
    else if key == hub_website
    then website_field
    else if key == hub_email
    then email_field
    else other_field

-- int64(v) of a uint64
pub to_int64 : ℕ → ℤ
to_int64 v = if ltb v (2 ^ 63) then pos v else negsuc (2 ^ 64 - 1 - v)

-- uint64(v) of an int64
pub to_uint64 : ℤ → ℕ
to_uint64 (pos n) = n
to_uint64 (negsuc n) = 2 ^ 64 - 1 - n

-- `setZlibLevel`
pub clamp_level : ℤ → ℤ
clamp_level (pos n) = if ltb 9 n then pos 9 else pos n
clamp_level (negsuc n) = negsuc 0

-- The values of a configuration file; `other` is any that `setConfig` does not support.
mutual
  pub data Raw {ℓ} (F : Type ℓ) : Type ℓ where
    value : Value F → Raw F
    nested : Entries F → Raw F
    other : Raw F

  -- a `Map`, in the order of the iteration
  pub data Entries {ℓ} (F : Type ℓ) : Type ℓ where
    done : Entries F
    entry : Bytes → Raw F → Entries F → Entries F

-- if path != "" { k = path + "." + k }
pub full_key : Bytes → Bytes → Bytes
full_key [] k = k
full_key (p ∷ path) k = p ∷ path ++ b'.' ∷ k

module _ {ℓ} {F : Type ℓ} where
  -- `setConfigMap`
  set_map : Bytes → Value F → Conf F → Conf F
  set_map key v c = if is_ignored key then c else record c { m = insert key v c.m }

  -- the switch of `setConfigString`
  set_field : Field → Bytes → Bytes → Conf F → Conf F
  set_field name_field key v c = record c { name = v }
  set_field desc_field key v c = record c { desc = v }
  set_field topic_field key v c = record c { topic = v }
  set_field motd_field key v c = record c { motd = v }
  set_field owner_field key v c = record c { owner = v }
  set_field website_field key v c = record c { website = v }
  set_field email_field key v c = record c { email = v }
  set_field other_field key v c = set_map key (text v) c

  -- `setConfigString`
  pub set_string : Bytes → Bytes → Conf F → Conf F
  set_string key v c = set_field (field_of (resolve key)) (resolve key) v c

  -- `setConfigBool`, `setConfigUint` and `setConfigFloat`
  set_plain : Bytes → Value F → Conf F → Conf F
  set_plain key v c = if is_ignored (resolve key) then c else set_map (resolve key) v c

  pub set_bool : Bytes → Bool → Conf F → Conf F
  set_bool key v c = set_plain key (boolean v) c

  pub set_uint : Bytes → ℕ → Conf F → Conf F
  set_uint key v c = set_plain key (uint v) c

  pub set_float : Bytes → F → Conf F → Conf F
  set_float key v c = set_plain key (float v) c

  -- `setConfigInt`
  pub set_int : Bytes → ℤ → Conf F → Conf F
  set_int key v c =
      if is_ignored (resolve key)
      then c
      else if resolve key == zlib_level
      then record c { level = clamp_level v }
      else set_map (resolve key) (int v) c

  -- the conversions at the end of each getter
  as_string : Convert F → Value F → Bytes
  as_string s (text v) = v
  as_string s v = s.sprint v

  as_bool : Convert F → Value F → Bool
  as_bool s (boolean v) = v
  as_bool s (int (pos n)) = not (n == 0)
  as_bool s (int (negsuc n)) = true
  as_bool s (uint v) = not (v == 0)
  as_bool s (float v) = s.nonzero v
  as_bool s (text v) = s.parse_bool v

  as_int : Convert F → Value F → ℤ
  as_int s (int v) = v
  as_int s (uint v) = to_int64 v
  as_int s (float v) = s.float_int v
  as_int s (boolean true) = pos 1
  as_int s (boolean false) = pos 0
  as_int s (text v) = s.parse_int v

  as_uint : Convert F → Value F → ℕ
  as_uint s (uint v) = v
  as_uint s (int v) = to_uint64 v
  as_uint s (float v) = s.float_uint v
  as_uint s (boolean true) = 1
  as_uint s (boolean false) = 0
  as_uint s (text v) = s.parse_uint v

  -- the switch of `GetConfigString`
  get_field : Convert F → Field → Bytes → Conf F → Option Bytes
  get_field s name_field key c = some c.name
  get_field s desc_field key c = some c.owner
  get_field s topic_field key c = some c.topic
  get_field s motd_field key c = some c.motd
  get_field s owner_field key c = some c.owner
  get_field s website_field key c = some c.website
  get_field s email_field key c = some c.email
  get_field s other_field key c = Option.map (as_string s) (lookup key c.m)

  -- `GetConfigString`
  pub get_string : Convert F → Bytes → Conf F → Option Bytes
  get_string s key c = get_field s (field_of (resolve key)) (resolve key) c

  -- `GetConfigBool`
  pub get_bool : Convert F → Bytes → Conf F → Option Bool
  get_bool s key c = Option.map (as_bool s) (lookup (resolve key) c.m)

  -- `GetConfigInt`
  pub get_int : Convert F → Bytes → Conf F → Option ℤ
  get_int s key c =
      if resolve key == zlib_level
      then some c.level
      else Option.map (as_int s) (lookup (resolve key) c.m)

  -- `GetConfigUint`
  pub get_uint : Convert F → Bytes → Conf F → Option ℕ
  get_uint s key c = Option.map (as_uint s) (lookup (resolve key) c.m)

  -- the switch of `setConfig`; `none` is the panic
  set_raw : Bytes → Raw F → Conf F → Option (Conf F)
  set_raw key (value (boolean b)) c = some (set_bool key b c)
  set_raw key (value (text t)) c = some (set_string key t c)
  set_raw key (value (int z)) c = some (set_int key z c)
  set_raw key (value (uint n)) c = some (set_uint key n c)
  set_raw key (value (float x)) c = some (set_float key x c)
  set_raw key (nested m) c = none
  set_raw key other c = none

  -- `setConfig`; `saveConfig` does nothing
  pub set_config : Bytes → Raw F → Conf F → Option (Conf F)
  set_config key v c = if is_ignored key then some c else set_raw key v c

  -- `MergeConfigPath`; `MergeConfig` calls it with the empty path
  pub merge_path : Bytes → Entries F → Conf F → Option (Conf F)
  merge_path path done c = some c
  merge_path path (entry k (nested m) rest) c = elim (merge_path (full_key path k) m c) [
    | none ↦ none
    | some c' ↦ merge_path path rest c'
  ]
  merge_path path (entry k (value v) rest) c = elim (set_config (full_key path k) (value v) c) [
    | none ↦ none
    | some c' ↦ merge_path path rest c'
  ]
  merge_path path (entry k other rest) c = elim (set_config (full_key path k) other c) [
    | none ↦ none
    | some c' ↦ merge_path path rest c'
  ]
