-- ===== src/Hub/Config/Lookup.antt =====
-- What the getters of hub/config.go return after the setters.
use go_dcpp.Hub.Config.{
  Value, Field, name_field, desc_field, topic_field, motd_field, owner_field, website_field,
  email_field, other_field, field_of, text, Conf, Convert, hub_name, hub_desc, hub_topic, hub_owner,
  hub_website, hub_email, hub_motd, resolve, is_ignored, has_key, config_ignored, set_map,
  set_field, set_string, as_string, get_field, get_string,
}
use go_dcpp.Base.{
  ◌≡◌, refl, Bool, true, false, not, ◌&&◌, ◌||◌, some, [], arith, if◌then◌else◌, ◌==◌, nat_eq,
  ==_iff, list_eq, Bytes, lookup, lookup-insert,
}

module _ {ℓ} {F : Type ℓ} (s : Convert F) where
  set_map-lookup :
      (k j : Bytes) (v : Value F) (c : Conf F)
      → lookup j (set_map k v c).m ≡ (if k == j && not (is_ignored k) then some v else lookup j c.m)
  unfolding set_map
  set_map-lookup k j v c = ground (arith, lookup-insert k j v c.m)

abbrev same : Field → Field → Bool
same name_field name_field = true
same desc_field desc_field = true
same topic_field topic_field = true
same motd_field motd_field = true
same owner_field owner_field = true
same website_field website_field = true
same email_field email_field = true
same f g = false

-- the case that `GetConfigString` reads in a case: the owner stands for the description
abbrev pub read_at : Field → Field
read_at desc_field = owner_field
read_at f = f

-- the key of a case
abbrev key_of : Field → Bytes → Bytes
key_of name_field k = hub_name
key_of desc_field k = hub_desc
key_of topic_field k = hub_topic
key_of motd_field k = hub_motd
key_of owner_field k = hub_owner
key_of website_field k = hub_website
key_of email_field k = hub_email
key_of other_field k = k

key_of-field_of : (k : Bytes) → key_of (field_of k) k ≡ k
unfolding field_of
key_of-field_of k = ground (
  arith,
  ==_iff k hub_name,
  ==_iff k hub_desc,
  ==_iff k hub_topic,
  ==_iff k hub_motd,
  ==_iff k hub_owner,
  ==_iff k hub_website,
  ==_iff k hub_email,
)

abbrev is_other : Field → Bool
is_other other_field = true
is_other f = false

module _ {ℓ} {F : Type ℓ} (s : Convert F) where
  get_field-set_field :
      (f g : Field) (j k v : Bytes) (c : Conf F)
      → get_field s f j (set_field g k v c) ≡ (
          if same (read_at f) g
          then some v
          else if is_other g
          then get_field s f j (set_map k (text v) c)
          else get_field s f j c)
  unfolding get_field set_field
  get_field-set_field f name_field j k v c = ground arith
  get_field-set_field f desc_field j k v c = ground arith
  get_field-set_field f topic_field j k v c = ground arith
  get_field-set_field f motd_field j k v c = ground arith
  get_field-set_field f owner_field j k v c = ground arith
  get_field-set_field f website_field j k v c = ground arith
  get_field-set_field f email_field j k v c = ground arith
  get_field-set_field f other_field j k v c = ground arith

  get_field-set_map :
      (f : Field) (j k : Bytes) (v : Bytes) (c : Conf F)
      → get_field s f j (set_map k (text v) c)
        ≡ (if is_other f && (k == j && not (is_ignored k)) then some v else get_field s f j c)
  unfolding get_field set_map as_string
  get_field-set_map f j k v c = ground (arith, lookup-insert k j (text v) c.m)

-- the key that `GetConfigString` reads: the owner stands for the description
abbrev pub read_key : Bytes → Bytes
read_key key = if resolve key == hub_desc then hub_owner else resolve key

not_ignored :
    is_ignored hub_name
      || is_ignored hub_desc
      || is_ignored hub_topic
      || is_ignored hub_motd
      || is_ignored hub_owner
      || is_ignored hub_website
      || is_ignored hub_email
    ≡ false
unfolding is_ignored has_key config_ignored
not_ignored = refl

field_of-ignored : (k : Bytes) → is_ignored k ≡ true → field_of k ≡ other_field
unfolding field_of
field_of-ignored k e = ground (
  arith,
  not_ignored,
  ==_iff k hub_name,
  ==_iff k hub_desc,
  ==_iff k hub_topic,
  ==_iff k hub_motd,
  ==_iff k hub_owner,
  ==_iff k hub_website,
  ==_iff k hub_email,
)

field_of-key_of :
    (f : Field) (k : Bytes) → (is_other f ≡ true → field_of k ≡ f) → field_of (key_of f k) ≡ f
unfolding field_of
field_of-key_of name_field k e = refl
field_of-key_of desc_field k e = refl
field_of-key_of topic_field k e = refl
field_of-key_of motd_field k e = refl
field_of-key_of owner_field k e = refl
field_of-key_of website_field k e = refl
field_of-key_of email_field k e = refl
field_of-key_of other_field k e = e refl

same-key_of : (f g : Field) (j k : Bytes) → same f g ≡ true → (f ≡ g) × (key_of f j ≡ key_of g k)
same-key_of f g j k e = (ground arith, ground arith)

same_refl : (f : Field) → same f f ≡ not (is_other f)
same_refl f = ground arith

read_key-key_of :
    (f : Field) (j : Bytes)
    → key_of f j ≡ j
    → field_of j ≡ f
    → (if j == hub_desc then hub_owner else j) ≡ key_of (read_at f) j
read_key-key_of f j at is_f =
    let desc : field_of hub_desc ≡ desc_field = field_of-key_of desc_field [] (λ e. ground arith) in
    ground (arith, ==_iff j hub_desc, desc)

read_at-same :
    (j k : Bytes)
    → (same (read_at (field_of j)) (field_of k)
        || is_other (field_of k) && (is_other (field_of j) && k == j))
      ≡ ((if j == hub_desc then hub_owner else j) == k)
read_at-same j k =
    let f = field_of j in
    let g = field_of k in
    let r = key_of (read_at f) j in
    let of_r : field_of r ≡ read_at f = field_of-key_of (read_at f) j (λ e. ground arith) in
    rw (read_key-key_of f j (key_of-field_of j) refl) (
      ground (
        arith,
        of_r,
        key_of-field_of j,
        key_of-field_of k,
        same-key_of (read_at f) g j k,
        same_refl g,
        ==_iff r k,
        ==_iff k j,
      ))

module _ {ℓ} {F : Type ℓ} (s : Convert F) where
  -- After `setConfigString` at a key that is not ignored, `GetConfigString` at that key or an alias of
  -- it returns the string, but at the description, where `GetConfigString` returns the owner; at any
  -- other key it returns what it did. At a key that is ignored `setConfigString` changes nothing.
  pub get_string-set_string :
      (j k v : Bytes) (c : Conf F)
      → get_string s j (set_string k v c) ≡ (
          if read_key j == resolve k && not (is_ignored (resolve k))
          then some v
          else get_string s j c)
  unfolding get_string set_string
  get_string-set_string j k v c = ground (
    arith,
    get_field-set_field s (field_of (resolve j)) (field_of (resolve k)) (resolve j) (resolve k) v c,
    get_field-set_map s (field_of (resolve j)) (resolve j) (resolve k) v c,
    read_at-same (resolve j) (resolve k),
    field_of-ignored (resolve k),
  )
