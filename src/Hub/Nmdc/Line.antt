-- ===== src/Hub/Nmdc/Line.antt =====
-- The connection of a client of NMDC as hub/hub_nmdc.go uses it, and `nmdcLock`. The messages are those of
-- a package elsewhere: what comes in is given by its type and the fields that are looked at, and a message
-- that does not decode is `another`. Deadlines, metrics and the log are left out.
pub mod Along
use go_dcpp.Hub.Peers.{Hub}
use go_dcpp.Hub.Users.Names.{NameError}
use go_dcpp.Base.{
  ℕ, ◌+◌, Bool, true, false, ◌||◌, Option, none, some, List, [], ◌∷◌, ◌++◌, if◌then◌else◌, ◌==◌,
  nat_eq, list_eq, Bytes,
}

-- the extensions that the code names, and others
pub data Ext : Type 0 where
  no_hello_ext no_get_info_ext bot_info_ext tth_search_ext user_ip_ext user_command_ext : Ext
  tths_ext bot_list_ext zpipe_ext hub_info_ext : Ext
  other_ext : ℕ → Ext

ext_code : Ext → ℕ
ext_code no_hello_ext = 0
ext_code no_get_info_ext = 1
ext_code bot_info_ext = 2
ext_code tth_search_ext = 3
ext_code user_ip_ext = 4
ext_code user_command_ext = 5
ext_code tths_ext = 6
ext_code bot_list_ext = 7
ext_code zpipe_ext = 8
ext_code hub_info_ext = 9
ext_code (other_ext n) = n + 10

unfoldable pub same_ext : Ext → Ext → Bool
unfolding ext_code
same_ext e e' = ext_code e == ext_code e'

-- `nmdcp.MyINFO`, of which the handshake reads these fields
pub record Info : Type 0 where
  pub name : Bytes
  pub share : ℕ

pub data Incoming : Type 0 where
  supports : List Ext → Incoming
  key validate_nick my_pass version : Bytes → Incoming
  my_info : Info → Incoming
  get_nick_list bot_info another : Incoming

pub data Failure : Type 0 where
  unread io_error wrong_key no_hello no_get_info not_tcp nick_taken insecure wrong_password :
      Failure
  bad_version nick_mismatch offline : Failure
  bad_name : NameError → Failure

-- what is written to the connection; `said` is a chat message with the text of the error
pub data Sent : Type 0 where
  lock zon hub_name get_pass bad_pass hub_topic user_command hub_info : Sent
  features : List Ext → Sent
  said : Failure → Sent
  denied hello : Bytes → Sent
  info_of : Bytes → Sent
  op_list bot_list user_ips : List Bytes → Sent

-- A conversation: what the next writes give, which is success from the end of the list on, the messages
-- that come in up to an error, those that are written, and the hub.
pub record Talk : Type 0 where
  pub oks : List Bool
  pub incoming : List Incoming
  pub sent : List Sent
  pub hub : Hub

pub data Answer (A : Type 0) : Type 0 where
  got : A → Answer A
  fails : Failure → Answer A

-- Code that returns an error, over a conversation.
abbrev pub M : Type 0 → Type 0
M A = Talk → Talk × Answer A

abbrev pub goes_on : {A B : Type 0} → (A → M B) → Talk × Answer A → Talk × Answer B
goes_on f (t, got a) = f a t
goes_on f (t, fails e) = (t, fails e)

infixl 5 ◌>>=◌ ◌>>◌
abbrev pub ◌>>=◌ : {A B : Type 0} → M A → (A → M B) → M B
◌>>=◌ m f t = goes_on f (m t)

abbrev pub ◌>>◌ : {B : Type 0} → M (Unit {0}) → M B → M B
m >> k = m >>= λ _. k

unfoldable pub pure : {A : Type 0} → A → M A
pure a t = (t, got a)

unfoldable pub raise : {A : Type 0} → Failure → M A
raise e t = (t, fails e)

-- if !test { return err }
unfoldable pub guard : Bool → Failure → M (Unit {0})
guard true e t = (t, got tt)
guard false e t = (t, fails e)

next_ok : List Bool → Bool × List Bool
next_ok [] = (true, [])
next_ok (b ∷ oks) = (b, oks)

-- `WriteMsg`, `WriteOneMsg` or `ZOn`
unfoldable pub write : Sent → M (Unit {0})
unfolding next_ok
write m t =
    let (worked, oks) = next_ok t.oks in
    if worked
    then (record t { oks = oks; sent = t.sent ++ m ∷ [] }, got tt)
    else (record t { oks = oks }, fails io_error)

unfoldable pub flush : M (Unit {0})
unfolding next_ok
flush t =
    let (worked, oks) = next_ok t.oks in
    (record t { oks = oks }, if worked then got tt else fails io_error)

-- `ReadMsgTo` and the like: what the next message gives, if it is one that is asked for
unfoldable pub read : {A : Type 0} → (Incoming → Option A) → M A
read wanted t = elim t.incoming [
  | [] ↦ (t, fails unread)
  | m ∷ rest ↦ elim (wanted m) [
    | none ↦ (record t { incoming = rest }, fails unread)
    | some a ↦ (record t { incoming = rest }, got a)
  ]
]

-- what is done to the hub, and what is seen there
unfoldable pub on_hub : {A : Type 0} → (Hub → Hub × A) → M A
on_hub f t = let (h, a) = f t.hub in (record t { hub = h }, got a)

-- `nmdcFeatures`
abbrev pub hub_features : List Ext
hub_features =
    no_hello_ext ∷ no_get_info_ext ∷ bot_info_ext ∷ tth_search_ext ∷ user_ip_ext ∷ user_command_ext
    ∷ tths_ext ∷ bot_list_ext ∷ zpipe_ext ∷ []

unfoldable pub has_ext : List Ext → Ext → Bool
unfolding same_ext
has_ext [] e = false
has_ext (x ∷ l) e = same_ext x e || has_ext l e

-- `Intersect`
unfoldable pub common : List Ext → List Ext → List Ext
unfolding has_ext
common [] l = []
common (x ∷ mine) l = let rest = common mine l in if has_ext l x then x ∷ rest else rest

abbrev pub as_supports : Incoming → Option (List Ext)
as_supports (supports l) = some l
as_supports _ = none

abbrev pub as_key : Incoming → Option Bytes
as_key (key k) = some k
as_key _ = none

abbrev pub as_nick : Incoming → Option Bytes
as_nick (validate_nick n) = some n
as_nick _ = none

-- `nmdcLock`; `lock_key` is the key that belongs to the lock
unfoldable pub nmdc_lock : Bytes → M (List Ext × Bytes)
nmdc_lock lock_key = do
  write lock
  ext ← read as_supports
  k ← read as_key
  guard (k == lock_key) wrong_key
  guard (has_ext ext no_hello_ext) no_hello
  guard (has_ext ext no_get_info_ext) no_get_info
  write (features hub_features)
  nick ← read as_nick
  pure (common hub_features ext, nick)
