-- ===== src/Hub/Search/Wire.antt =====
-- A search in the form of ADC: what `adcPeer.Search` of hub/hub_adc.go writes, and what
-- `adcHandleSearch` reads.
use go_dcpp.Hub.Search.{
  Tth, FileType, any, picture, audio, video, compressed, documents, executable, NameSearch,
  SearchRequest, name_search, dir_search, tth_search, file_search,
}
use go_dcpp.Base.{
  ℕ, ◌≡◌, refl, Bool, true, false, not, ◌||◌, Option, none, some, List, [], ◌∷◌, arith,
  if◌then◌else◌, ◌==◌, nat_eq, list_eq, Bytes,
}

-- adc.FileType
pub data AdcFileType : Type 0 where
  type_any type_file type_dir : AdcFileType

-- adc.ExtGroup
abbrev pub ExtGroup : Type 0
ExtGroup = ℕ

abbrev pub ext_none : ExtGroup
ext_none = 0

abbrev pub ext_audio : ExtGroup
ext_audio = 1

abbrev pub ext_arch : ExtGroup
ext_arch = 2

abbrev pub ext_doc : ExtGroup
ext_doc = 4

abbrev pub ext_exe : ExtGroup
ext_exe = 8

abbrev pub ext_image : ExtGroup
ext_image = 16

abbrev pub ext_video : ExtGroup
ext_video = 32

-- `adc.SearchRequest`
pub record AdcSearch : Type 0 where
  pub token : Bytes
  pub and : List Bytes
  pub not_in : List Bytes
  pub ext : List Bytes
  pub le : ℕ
  pub ge : ℕ
  pub eq : ℕ
  pub type_of : AdcFileType
  pub tth : Option Tth
  pub group : ExtGroup
  pub no_ext : List Bytes

group_of : FileType → ExtGroup
group_of audio = ext_audio
group_of compressed = ext_arch
group_of documents = ext_doc
group_of executable = ext_exe
group_of picture = ext_image
group_of video = ext_video
group_of any = ext_none

abbrev blank : Bytes → AdcSearch
blank token = record {
  token = token;
  and = [];
  not_in = [];
  ext = [];
  le = 0;
  ge = 0;
  eq = 0;
  type_of = type_any;
  tth = none;
  group = ext_none;
  no_ext = [];
}

-- The message that `adcPeer.Search` sends.
pub to_adc : Bytes → SearchRequest → AdcSearch
unfolding group_of
to_adc token (tth_search h) = record (blank token) { tth = some h }
to_adc token (name_search n) = record (blank token) { and = n.and; not_in = n.not_in }
to_adc token (dir_search n) = record (blank token) {
  and = n.and;
  not_in = n.not_in;
  type_of = type_dir;
}
to_adc token (file_search r) =
    let m = record (blank token) {
      and = r.name.and;
      not_in = r.name.not_in;
      ext = r.ext;
      no_ext = r.no_ext;
      type_of = type_file;
      group = group_of r.file_type;
    } in
    if r.min_size == r.max_size
    then record m { eq = r.max_size }
    else record m { ge = r.min_size; le = r.max_size }

file_type_of : ExtGroup → FileType
file_type_of g =
    if g == ext_audio
    then audio
    else if g == ext_arch
    then compressed
    else if g == ext_doc
    then documents
    else if g == ext_exe
    then executable
    else if g == ext_image
    then picture
    else if g == ext_video
    then video
    else any

is_file : AdcFileType → Bool
is_file type_file = true
is_file type_any = false
is_file type_dir = false

is_empty : List Bytes → Bool
is_empty [] = true
is_empty (x ∷ l) = false

-- The search that `adcHandleSearch` makes of a message.
pub of_adc : AdcSearch → SearchRequest
unfolding file_type_of is_file is_empty
of_adc m = elim m.tth [
  | some h ↦ tth_search h
  | none ↦
      let n : NameSearch = record { and = m.and; not_in = m.not_in } in
      if is_file m.type_of
        || not (m.eq == 0)
        || not (m.le == 0)
        || not (m.ge == 0)
        || not (is_empty m.ext)
        || not (is_empty m.no_ext)
        || not (m.group == ext_none)
      then file_search (record {
        name = n;
        ext = m.ext;
        no_ext = m.no_ext;
        file_type = file_type_of m.group;
        min_size = if m.eq == 0 then m.ge else m.eq;
        max_size = if m.eq == 0 then m.le else m.eq;
      })
      else name_search n
]

-- what is left of a search: the kind of a search for directories is lost
abbrev pub without_dir : SearchRequest → SearchRequest
without_dir (dir_search n) = name_search n
without_dir r = r

group_round : (t : FileType) → file_type_of (group_of t) ≡ t
unfolding file_type_of group_of
group_round any = refl
group_round picture = refl
group_round audio = refl
group_round video = refl
group_round compressed = refl
group_round documents = refl
group_round executable = refl

-- A search that the hub passes on in ADC and reads back is the same search, with every limit of size,
-- extension and group, but that a search for directories comes back as one by name alone.
pub of_adc-to_adc : (token : Bytes) (r : SearchRequest) → of_adc (to_adc token r) ≡ without_dir r
unfolding of_adc to_adc is_file is_empty
of_adc-to_adc token (tth_search h) = refl
of_adc-to_adc token (name_search n) = ground arith
of_adc-to_adc token (dir_search n) = ground arith
of_adc-to_adc token (file_search r) = ground (arith, group_round r.file_type)
