-- ===== src/Hub/Config/Tests.antt =====
-- Settings at which the theorems on hub/config.go are applied; the floats are whole numbers.
use go_dcpp.Hub.Config.{
  text, int, Conf, Convert, hub_desc, zlib_level, resolve, is_ignored, set_string, get_string,
  value, nested, Entries, done, entry, merge_path,
}
use go_dcpp.Hub.Config.Lookup.{read_key, get_string-set_string}
use go_dcpp.Hub.Config.Merge.{flatten, set_all, merge_path-flatten}
use go_dcpp.Base.{
  ℕ, ◌≡◌, false, not, ◌&&◌, some, [], ◌∷◌, if◌then◌else◌, ◌==◌, nat_eq, list_eq, codes, pos, negsuc,
}

abbrev fresh : Conf ℕ
fresh = record {
  name = codes "hub";
  desc = codes "about";
  topic = [];
  motd = [];
  owner = codes "me";
  website = [];
  email = [];
  level = negsuc 0;
  m = [];
}

abbrev convert : Convert ℕ
convert = record {
  parse_bool = λ s. false;
  parse_int = λ s. pos 0;
  parse_uint = λ s. 0;
  sprint = λ v. [];
  nonzero = λ x. not (x == 0);
  float_int = λ x. pos x;
  float_uint = λ x. x;
}

get_string-set_string_example :
    get_string convert hub_desc (set_string (codes "desc") (codes "new") fresh) ≡ (
      if read_key hub_desc == resolve (codes "desc") && not (is_ignored (resolve (codes "desc")))
      then some (codes "new")
      else get_string convert hub_desc fresh)
get_string-set_string_example =
    get_string-set_string convert hub_desc (codes "desc") (codes "new") fresh

-- hub: { name: go, owner: me }, with a setting beside it
abbrev tree : Entries ℕ
tree =
    entry (codes "hub")
      (nested (
        entry (codes "name") (value (text (codes "go")))
          (entry (codes "owner") (value (text (codes "me"))) done)))
      (entry zlib_level (value (int (pos 3))) done)

merge_path-flatten_example : merge_path [] tree fresh ≡ set_all (flatten ([] ∷ []) tree) fresh
merge_path-flatten_example = merge_path-flatten [] tree fresh
