-- ===== src/Hub/Nmdc/Search.antt =====
-- A search in the form of NMDC: `nmdcHandleSearch`, `searchCmdTTH` and `searchCmdOther` of
-- hub/hub_nmdc.go. `trim` is strings.TrimSpace; sizes of 64 bits stand by their bits. A message is given by
-- the fields that the code looks at.
pub mod Words
pub mod Back
use go_dcpp.Hub.Search.{
  Tth, FileType, any, picture, audio, video, compressed, documents, executable, NameSearch,
  FileSearch, SearchRequest, name_search, dir_search, tth_search, file_search,
}
use go_dcpp.Hub.Nmdc.Search.Words.{split, join, split-join}
use go_dcpp.Base.{
  ℕ, Bool, true, false, not, ◌&&◌, Option, none, some, List, [], if◌then◌else◌, ◌==◌, nat_eq,
  list_eq, Bytes,
}

-- nmdcp.DataType
pub data DataType : Type 0 where
  of_any of_audio of_compressed of_document of_executable of_picture of_video : DataType
  of_folders of_tth of_others : DataType

-- `nmdcp.Search`; `tth` is `none` when it is nil
pub record SearchMessage : Type 0 where
  pub address : Bytes
  pub user : Bytes
  pub size_restricted : Bool
  pub is_max_size : Bool
  pub size : ℕ
  pub data_type : DataType
  pub pattern : Bytes
  pub tth : Option Tth

-- what is sent to search: `TTHSearchPassive`, or `Search`
pub data SearchCommand : Type 0 where
  passive : (user : Bytes) → Tth → SearchCommand
  search_message : SearchMessage → SearchCommand

-- what comes of a message: it is ignored, or it is a search, or the nil TTH is read
pub data Asked : Type 0 where
  ignored panics : Asked
  asks : SearchRequest → Asked

file_type_of : DataType → FileType
file_type_of of_audio = audio
file_type_of of_compressed = compressed
file_type_of of_document = documents
file_type_of of_executable = executable
file_type_of of_picture = picture
file_type_of of_video = video
file_type_of of_any = any
file_type_of of_folders = any
file_type_of of_tth = any
file_type_of of_others = any

data_type_of : FileType → DataType
data_type_of audio = of_audio
data_type_of compressed = of_compressed
data_type_of documents = of_document
data_type_of executable = of_executable
data_type_of picture = of_picture
data_type_of video = of_video
data_type_of any = of_any

is_any : DataType → Bool
is_any of_any = true
is_any of_audio = false
is_any of_compressed = false
is_any of_document = false
is_any of_executable = false
is_any of_picture = false
is_any of_video = false
is_any of_folders = false
is_any of_tth = false
is_any of_others = false

module _ (trim : Bytes → Bytes) where
  words_of : Bytes → List Bytes
  words_of pattern = let p = trim pattern in if p == [] then [] else split p b' '

  -- the search by words
  by_words : NameSearch → SearchMessage → SearchRequest
  unfolding file_type_of is_any
  by_words name m =
      if is_any m.data_type && not m.size_restricted
      then name_search name
      else file_search (record {
        name = name;
        ext = [];
        no_ext = [];
        file_type = file_type_of m.data_type;
        min_size = if m.size_restricted && not m.is_max_size then m.size else 0;
        max_size = if m.size_restricted && m.is_max_size then m.size else 0;
      })

  by_hash : Bool → Option Tth → Asked
  by_hash true tth = ignored
  by_hash false none = panics
  by_hash false (some h) = asks (tth_search h)

  by_kind : Bool → SearchMessage → DataType → Asked
  unfolding words_of by_words by_hash
  by_kind has_tths m of_tth = by_hash has_tths m.tth
  by_kind has_tths m of_folders =
      asks (dir_search (record { and = words_of m.pattern; not_in = [] }))
  by_kind has_tths m _ = asks (by_words (record { and = words_of m.pattern; not_in = [] }) m)

  -- `nmdcHandleSearch`, up to Hub.Search; `has_tths` tells whether the peer supports SP
  pub of_nmdc : Bool → SearchMessage → Asked
  unfolding by_kind
  of_nmdc has_tths m = by_kind has_tths m m.data_type

abbrev pub blank : Bytes → SearchMessage
blank user = record {
  address = [];
  user = user;
  size_restricted = false;
  is_max_size = false;
  size = 0;
  data_type = of_any;
  pattern = [];
  tth = none;
}

-- `searchCmdTTH`; `tths` tells whether the peer that is asked supports SP
pub search_cmd_tth : Bool → Bytes → Tth → SearchCommand
search_cmd_tth true user h = passive user h
search_cmd_tth false user h =
    search_message (record (blank user) { data_type = of_tth; tth = some h })

-- the message for a search of files
file_message : FileSearch → SearchMessage → SearchMessage
unfolding data_type_of
file_message r m =
    let m' = record m { data_type = data_type_of r.file_type; pattern = join r.name.and b' ' } in
    if not (r.max_size == 0)
    then record m' { size_restricted = true; is_max_size = true; size = r.max_size }
    else if not (r.min_size == 0)
    then record m' { size_restricted = true; size = r.min_size }
    else m'

-- `searchCmdOther` for what it handles, and `searchCmdTTH`, as `nmdcPeer.Search` calls them
pub to_nmdc : Bool → Bytes → SearchRequest → SearchCommand
unfolding search_cmd_tth file_message
to_nmdc tths user (tth_search h) = search_cmd_tth tths user h
to_nmdc tths user (name_search n) =
    search_message (record (blank user) { pattern = join n.and b' ' })
to_nmdc tths user (dir_search n) =
    search_message (record (blank user) { data_type = of_folders; pattern = join n.and b' ' })
to_nmdc tths user (file_search r) = search_message (file_message r (blank user))
