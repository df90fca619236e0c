-- ===== src/Hub/Config/Merge.antt =====
-- `MergeConfigPath` of hub/config.go.
use go_dcpp.Hub.Config.{
  Conf, Raw, boolean, text, int, uint, float, value, nested, other, Entries, done, entry,
  is_ignored, set_bool, set_string, set_int, set_uint, set_float, set_raw, set_config, full_key,
  merge_path,
}
use go_dcpp.Base.{
  ◌≡◌, refl, sym, ap, ◌∙◌, inl, inr, Option, none, some, List, [], ◌∷◌, ◌++◌, append_assoc,
  append-nil, arith, if◌then◌else◌, nat_eq, list_eq, Option-cases, Bytes,
}

-- A dot before each part.
abbrev pub dotted_rest : List Bytes → Bytes
dotted_rest [] = []
dotted_rest (p ∷ parts) = b'.' ∷ p ++ dotted_rest parts

-- The parts with dots between them; empty ones at the front are left out.
abbrev pub dotted : List Bytes → Bytes
dotted [] = []
dotted ([] ∷ parts) = dotted parts
dotted ((c ∷ p) ∷ parts) = c ∷ p ++ dotted_rest parts

dotted_rest-append :
    (parts : List Bytes) (k : Bytes) → dotted_rest (parts ++ k ∷ []) ≡ dotted_rest parts ++ b'.' ∷ k
dotted_rest-append [] k = ap (λ s. b'.' ∷ s) (append-nil k)
dotted_rest-append (p ∷ parts) k =
    ap (λ s. b'.' ∷ s)
      (ap (λ s. p ++ s) (dotted_rest-append parts k)
        ∙ sym (append_assoc p (dotted_rest parts) (b'.' ∷ k)))

full_key-dotted :
    (parts : List Bytes) (k : Bytes) → full_key (dotted parts) k ≡ dotted (parts ++ k ∷ [])
unfolding full_key
full_key-dotted [] [] = refl
full_key-dotted [] (c ∷ k) = sym (append-nil (c ∷ k))
full_key-dotted ([] ∷ parts) k = full_key-dotted parts k
full_key-dotted ((c ∷ p) ∷ parts) k =
    append_assoc (c ∷ p) (dotted_rest parts) (b'.' ∷ k)
    ∙ ap (λ s. (c ∷ p) ++ s) (sym (dotted_rest-append parts k))

module _ {ℓ} {F : Type ℓ} where
  -- The settings of a configuration below `parts`, each with the parts of its key, in their order.
  abbrev pub flatten : List Bytes → Entries F → List (List Bytes × Raw F)
  flatten parts done = []
  flatten parts (entry k (nested m) rest) = flatten (parts ++ k ∷ []) m ++ flatten parts rest
  flatten parts (entry k (value v) rest) = (parts ++ k ∷ [], value v) ∷ flatten parts rest
  flatten parts (entry k other rest) = (parts ++ k ∷ [], other) ∷ flatten parts rest

  -- The setter for the type of the value; `none` is a panic.
  abbrev pub set_value : Bytes → Raw F → Conf F → Option (Conf F)
  set_value key (value (boolean b)) c = some (set_bool key b c)
  set_value key (value (text t)) c = some (set_string key t c)
  set_value key (value (int z)) c = some (set_int key z c)
  set_value key (value (uint n)) c = some (set_uint key n c)
  set_value key (value (float x)) c = some (set_float key x c)
  set_value key (nested m) c = none
  set_value key other c = none

  -- one setting, less those whose key is ignored
  abbrev pub set_one : List Bytes → Raw F → Conf F → Option (Conf F)
  set_one parts v c = if is_ignored (dotted parts) then some c else set_value (dotted parts) v c

  -- the settings one after the other
  abbrev pub set_all : List (List Bytes × Raw F) → Conf F → Option (Conf F)
  set_all [] c = some c
  set_all ((parts, v) ∷ l) c = elim (set_one parts v c) [ none ↦ none | some c' ↦ set_all l c' ]

  set_raw-set_value : (key : Bytes) (v : Raw F) (c : Conf F) → set_raw key v c ≡ set_value key v c
  unfolding set_raw
  set_raw-set_value key (value (boolean b)) c = refl
  set_raw-set_value key (value (text t)) c = refl
  set_raw-set_value key (value (int z)) c = refl
  set_raw-set_value key (value (uint n)) c = refl
  set_raw-set_value key (value (float x)) c = refl
  set_raw-set_value key (nested m) c = refl
  set_raw-set_value key other c = refl

  set_config-set_one :
      (parts : List Bytes) (k : Bytes) (v : Raw F) (c : Conf F)
      → set_config (full_key (dotted parts) k) v c ≡ set_one (parts ++ k ∷ []) v c
  unfolding set_config
  set_config-set_one parts k v c =
      rw (full_key-dotted parts k, set_raw-set_value (dotted (parts ++ k ∷ [])) v c) refl

  set_all-append :
      (l m : List (List Bytes × Raw F)) (c : Conf F)
      → set_all (l ++ m) c
        ≡ elim (set_all l c) as (λ x. Option (Conf F)) [ none ↦ none | some c' ↦ set_all m c' ]
  set_all-append [] m c = refl
  set_all-append ((parts, v) ∷ l) m c = elim (Option-cases (set_one parts v c)) [
    | inl e ↦ rw (e, set_all) refl
    | inr (c', e) ↦ rw (e, set_all) (set_all-append l m c')
  ]

  -- a setting that is followed by others
  merge_path-entry :
      (parts : List Bytes) (k : Bytes) (v : Raw F) (rest : Entries F) (c : Conf F)
      → ((c' : Conf F) → merge_path (dotted parts) rest c' ≡ set_all (flatten parts rest) c')
      → elim (set_config (full_key (dotted parts) k) v c) as (λ x. Option (Conf F)) [
        | none ↦ none
        | some c' ↦ merge_path (dotted parts) rest c'
      ]
        ≡ set_all ((parts ++ k ∷ [], v) ∷ flatten parts rest) c
  merge_path-entry parts k v rest c others = elim (Option-cases (set_one (parts ++ k ∷ []) v c)) [
    | inl e ↦ ground (arith, e, set_config-set_one parts k v c)
    | inr (c', e) ↦ ground (arith, e, set_config-set_one parts k v c, others c')
  ]

  merge_path-parts :
      (parts : List Bytes) (m : Entries F) (c : Conf F)
      → merge_path (dotted parts) m c ≡ set_all (flatten parts m) c
  unfolding merge_path
  merge_path-parts parts done c = refl
  merge_path-parts parts (entry k (nested m) rest) c =
      let below : merge_path (full_key (dotted parts) k) m c
          ≡ set_all (flatten (parts ++ k ∷ []) m) c =
        ap (λ s. merge_path s m c) (full_key-dotted parts k)
        ∙ merge_path-parts (parts ++ k ∷ []) m c in
      elim (Option-cases (merge_path (full_key (dotted parts) k) m c)) [
        | inl e ↦
            ground
              (arith, below, set_all-append (flatten (parts ++ k ∷ []) m) (flatten parts rest) c)
        | inr (c', e) ↦ ground (
          arith,
          below,
          merge_path-parts parts rest c',
          set_all-append (flatten (parts ++ k ∷ []) m) (flatten parts rest) c,
        )
      ]
  merge_path-parts parts (entry k (value v) rest) c =
      merge_path-entry parts k (value v) rest c (merge_path-parts parts rest)
  merge_path-parts parts (entry k other rest) c =
      merge_path-entry parts k other rest c (merge_path-parts parts rest)

  -- `MergeConfigPath` calls, for each setting of the tree in the order of the tree, the setter for the type of its
  -- value, with the path and the keys that lead to it, joined by dots, less empty ones at the front; a setting
  -- with an ignored key is left out, and it panics just when another one has a value of no supported type.
  pub merge_path-flatten :
      (path : Bytes) (m : Entries F) (c : Conf F)
      → merge_path path m c ≡ set_all (flatten (path ∷ []) m) c
  merge_path-flatten [] m c = merge_path-parts ([] ∷ []) m c
  merge_path-flatten (p ∷ path) m c =
      ap (λ s. merge_path s m c) (sym (append-nil (p ∷ path)))
      ∙ merge_path-parts ((p ∷ path) ∷ []) m c
