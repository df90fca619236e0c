-- ===== src/Hub/Nmdc/Search/Back.antt =====
-- A search of NMDC that is sent and read back: hub/hub_nmdc.go.
use go_dcpp.Hub.Search.{
  FileType, any, picture, audio, video, compressed, documents, executable, NameSearch, FileSearch,
  SearchRequest, name_search, dir_search, tth_search, file_search,
}
use go_dcpp.Hub.Nmdc.Search.Words.{join, split-join}
use go_dcpp.Base.{
  ◌≡◌, refl, ◌≢◌, Bool, true, false, ◌&&◌, List, [], ◌∷◌, arith, if◌then◌else◌, ◌==◌, nat_eq,
  ==_iff, list_eq, Bytes, All, Lacks,
}
use go_dcpp.Hub.Nmdc.Search.{
  SearchMessage, SearchCommand, passive, search_message, Asked, asks, file_type_of, data_type_of,
  is_any, words_of, by_words, by_kind, of_nmdc, blank, file_message, to_nmdc,
}

-- What is left of a search: no words or extensions to leave out, no extensions to look for, the least size
-- only where there is no greatest, and a search of files by words alone is one by name.
abbrev words_only : NameSearch → NameSearch
words_only n = record { and = n.and; not_in = [] }

abbrev is_any_type : FileType → Bool
is_any_type any = true
is_any_type _ = false

abbrev pub what_is_left : SearchRequest → SearchRequest
what_is_left (tth_search h) = tth_search h
what_is_left (name_search n) = name_search (words_only n)
what_is_left (dir_search n) = dir_search (words_only n)
what_is_left (file_search r) =
    if is_any_type r.file_type && r.max_size == 0 && r.min_size == 0
    then name_search (words_only r.name)
    else file_search (record {
      name = words_only r.name;
      ext = [];
      no_ext = [];
      file_type = r.file_type;
      min_size = if r.max_size == 0 then r.min_size else 0;
      max_size = r.max_size;
    })

-- a text that trimming leaves alone, of words without spaces
abbrev pub IsPlain : (Bytes → Bytes) → List Bytes → Type 0
IsPlain trim [] = trim [] ≡ []
IsPlain trim (w ∷ ws) =
    (trim (join (w ∷ ws) b' ') ≡ join (w ∷ ws) b' ')
    × (join (w ∷ ws) b' ' ≢ [])
    × All (Lacks b' ') (w ∷ ws)

abbrev pub words_in : SearchRequest → List Bytes
words_in (tth_search h) = []
words_in (name_search n) = n.and
words_in (dir_search n) = n.and
words_in (file_search r) = r.name.and

-- reads a command that is a `Search`
abbrev pub read_back : (Bytes → Bytes) → SearchCommand → Asked
read_back trim (passive user h) = asks (tth_search h)
read_back trim (search_message m) = of_nmdc trim false m

words_of-join :
    (trim : Bytes → Bytes) (ws : List Bytes) → IsPlain trim ws → words_of trim (join ws b' ') ≡ ws
unfolding words_of
words_of-join trim [] plain = unfold join in ground (arith, plain)
words_of-join trim (w ∷ ws) plain =
    ground (arith, plain.0, plain.1, split-join b' ' w ws plain.2, ==_iff (join (w ∷ ws) b' ') [])

type_back : (t : FileType) → file_type_of (data_type_of t) ≡ t
unfolding file_type_of data_type_of
type_back any = refl
type_back picture = refl
type_back audio = refl
type_back video = refl
type_back compressed = refl
type_back documents = refl
type_back executable = refl

any_back : (t : FileType) → is_any (data_type_of t) ≡ is_any_type t
unfolding is_any data_type_of
any_back any = refl
any_back picture = refl
any_back audio = refl
any_back video = refl
any_back compressed = refl
any_back documents = refl
any_back executable = refl

files_asked :
    (trim : Bytes → Bytes) (m : SearchMessage) (t : FileType)
    → by_kind trim false m (data_type_of t)
      ≡ asks (by_words trim (record { and = words_of trim m.pattern; not_in = [] }) m)
unfolding by_kind data_type_of
files_asked trim m any = refl
files_asked trim m picture = refl
files_asked trim m audio = refl
files_asked trim m video = refl
files_asked trim m compressed = refl
files_asked trim m documents = refl
files_asked trim m executable = refl

by_sizes :
    (trim : Bytes → Bytes) (user : Bytes) (r : FileSearch)
    → IsPlain trim r.name.and
    → of_nmdc trim false (file_message r (blank user)) ≡ asks (what_is_left (file_search r))
unfolding of_nmdc file_message by_words
by_sizes trim user r plain = ground (
  arith,
  type_back r.file_type,
  any_back r.file_type,
  words_of-join trim r.name.and plain,
  files_asked trim,
)

-- A search that the hub sends in NMDC and reads back is what is left of it, if its words are plain.
pub of_nmdc-to_nmdc :
    (trim : Bytes → Bytes) (tths : Bool) (user : Bytes) (r : SearchRequest)
    → IsPlain trim (words_in r)
    → read_back trim (to_nmdc tths user r) ≡ asks (what_is_left r)
unfolding of_nmdc to_nmdc
of_nmdc-to_nmdc trim true user (tth_search h) plain = refl
of_nmdc-to_nmdc trim false user (tth_search h) plain = refl
of_nmdc-to_nmdc trim tths user (name_search n) plain = rw (words_of-join trim n.and plain)
of_nmdc-to_nmdc trim tths user (dir_search n) plain = rw (words_of-join trim n.and plain)
of_nmdc-to_nmdc trim tths user (file_search r) plain = by_sizes trim user r plain
