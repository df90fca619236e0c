-- ===== src/Hub/Nmdc/Serve.antt =====
-- The loop of `nmdcServePeer` of hub/hub_nmdc.go, which limits the messages of each type in a minute. The
-- names of the types are of a package elsewhere. `Msg` is the type of the messages; the writer of the
-- queue, metrics and the log are left out.
pub mod Flood
use go_dcpp.Base.{
  ℕ, ◌+◌, ◌%◌, ◌^◌, Bool, false, not, none, some, List, [], ◌∷◌, leb, if◌then◌else◌, nat_eq,
  list_eq, Bytes, Map, lookup, insert,
}

pub record Types : Type 0 where
  pub my_info : Bytes
  pub tth_passive : Bytes
  pub tth_active : Bytes
  pub search : Bytes
  pub result : Bytes
  pub connect_to_me : Bytes
  pub rev_connect_to_me : Bytes

-- `nmdcMaxPerMin`
abbrev pub max_per_min : ℕ
max_per_min = 30

-- `nmdcMaxPerMinCmd`
unfoldable pub max_per_min_cmd : Types → Map Bytes ℕ
max_per_min_cmd t =
    (t.my_info, 30)
    ∷ (t.tth_passive, 15)
    ∷ (t.tth_active, 15)
    ∷ (t.search, 15)
    ∷ (t.result, 150)
    ∷ (t.connect_to_me, 20)
    ∷ (t.rev_connect_to_me, 20)
    ∷ []

-- the limit of a type
unfoldable pub max_of : Types → Bytes → ℕ
unfolding max_per_min_cmd
max_of t typ = elim (lookup typ (max_per_min_cmd t)) [ none ↦ max_per_min | some v ↦ v ]

abbrev pub Counts : Type 0
Counts = Map Bytes ℕ

-- cnt[typ]
pub count_of : Bytes → Counts → ℕ
count_of typ cnt = elim (lookup typ cnt) [ none ↦ 0 | some n ↦ n ]

-- for k := range cnt { cnt[k] = 0 }
pub reset : Counts → Counts
reset [] = []
reset ((k, n) ∷ cnt) = (k, 0) ∷ reset cnt

module _ {Msg : Type 0} (t : Types) (type_of : Msg → Bytes) (registered : Bytes → Bool)
    (fails : Msg → Bool) where
  -- One message, when the ticker has fired or not: the counts, which are of 64 bits, and whether it is
  -- passed on.
  pub admit : Bool → Msg → Counts → Counts × Bool
  unfolding count_of reset
  admit tick m cnt =
      let typ = type_of m in
      if not (registered typ)
      then (cnt, false)
      else let cnt' = if tick then reset cnt else cnt in
        let n = (count_of typ cnt' + 1) % 2 ^ 64 in (insert typ n cnt', not (leb (max_of t typ) n))

  -- `nmdcServePeer` up to the end of the messages: those that `nmdcHandle` is called with, up to the first
  -- that it returns an error for
  pub serve_peer : List (Msg × Bool) → Counts → List Msg
  unfolding admit
  serve_peer [] cnt = []
  serve_peer ((m, tick) ∷ ms) cnt =
      let (cnt', admitted) = admit tick m cnt in
      let rest = serve_peer ms cnt' in
      if not admitted then rest else if fails m then m ∷ [] else m ∷ rest
