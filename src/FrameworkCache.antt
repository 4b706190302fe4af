-- ===== src/FrameworkCache.antt =====
-- src/framework/CF_framework_cache.h: the documents that wait to be shown to a user, in a hash table
-- that is not in the repository. Numbers of documents are natural numbers here; the time is what
-- `time(NULL)` gives, and a draw what `rand()` does.
pub mod Serving
use content_based.Base.{
  Option, none, some, List, [], ◌∷◌, ◌++◌, if◌then◌else◌, ℕ, zero, suc, ◌+◌, ◌-◌, ◌*◌, ◌%◌, ℤ, pos,
  negsuc, ◌-ℤ◌, ltb, leb, ltb_ℤ, ◌==ℤ◌, length, take,
}

-- A value of the table: the time of the last search, that of the last update, the number of
-- documents and that many ids.
pub record Cached : Type 0 where
  pub search_time : ℤ
  pub update_time : ℤ
  pub ids : List ℕ

-- The members that `init` sets, but for the table and the log for debugging.
pub record CacheOptions : Type 0 where
  pub cache_count : ℕ
  pub flush_count : ℕ
  pub flush_time : ℤ

-- `m_return_value`, and `m_return_count` of them.
abbrev pub return_value : ℕ → ℕ
return_value i = i + 3

abbrev pub return_count : ℕ
return_count = 4

abbrev pub smaller : ℕ → ℕ → ℕ
smaller a b = if ltb a b then a else b

-- How many documents a call of `get` returns.
unfoldable pub returned_count : ℕ → ℕ → ℕ → ℕ
returned_count draw req_num num =
    let rand_num = return_value (draw % return_count) in
    let ret_num = if ltb rand_num req_num then rand_num else req_num in
    if ltb num ret_num then num else ret_num

abbrev pub drop : ℕ → List ℕ → List ℕ
drop zero xs = xs
drop (suc n) [] = []
drop (suc n) (x ∷ xs) = drop n xs

-- What `get` makes of a value: the code that it returns, `none` where the source leaves it unset,
-- the documents, and the value that is written back.
pub record Served : Type 0 where
  pub is_flush : Option ℤ
  pub ret_lst : List ℕ
  pub written : Cached

-- The branch for a value that is not out of date. There is nothing where the ids that remain do not
-- fit into the 2048 bytes of `buffer`.
unfoldable pub serve_fresh : CacheOptions → ℤ → ℕ → ℕ → Cached → Option Served
serve_fresh opts now draw req_num c =
    let ret_num = returned_count draw req_num (length c.ids) in
    let remain_count = length c.ids - ret_num in
    let late = ltb_ℤ (pos 60) (now -ℤ c.search_time) in
    let few = leb remain_count opts.flush_count in
    if ltb 2048 (12 + remain_count * 8)
    then none
    else some (record {
      is_flush = if few then (if late then some (pos 1) else none) else some (pos 2);
      ret_lst = take ret_num c.ids;
      written = record c {
        search_time = if few then (if late then now else c.search_time) else c.search_time;
        ids = drop ret_num c.ids;
      };
    })

-- The branch for a value that is out of date.
unfoldable pub serve_old : ℤ → Cached → Served
serve_old now c =
    let late = ltb_ℤ (pos 60) (now -ℤ c.search_time) in
    record {
      is_flush = some (if late then pos 3 else pos 4);
      ret_lst = [];
      written = record {
        search_time = if late then now else c.search_time;
        update_time = pos 0;
        ids = [];
      };
    }

unfoldable pub serve : CacheOptions → ℤ → ℕ → ℕ → Cached → Option Served
serve opts now draw req_num c =
    if ltb_ℤ (now -ℤ c.update_time) opts.flush_time
    then serve_fresh opts now draw req_num c
    else some (serve_old now c)

-- `UT_HashTable_Pro`, by the user's id: `pop_value`, `push_value` of what it gave, and `add`, which
-- returns a code.
pub record CacheTable (K : Type 0) : Type 0 where
  pub pop_value : ℕ → K → Option Cached × K
  pub push_value : K → K
  pub add : ℕ → Cached → K → ℤ × K

module _ {K : Type 0} (table : CacheTable K) (opts : CacheOptions) where
  -- A code, the documents and the table; nothing where memory behind `buffer` is written to.
  abbrev pub Got : Type 0
  Got = Option (Option ℤ × (List ℕ × K))

  abbrev pub write_back : ℕ → K → Option Served → Got
  write_back uid k none = none
  write_back uid k (some r) =
      some (r.is_flush, (r.ret_lst, (table.add uid r.written (table.push_value k)).1))

  abbrev pub got_value : ℤ → ℕ → ℕ → ℕ → Option Cached × K → Got
  got_value now draw uid req_num (none, k) = some (some (negsuc 0), ([], k))
  got_value now draw uid req_num (some c, k) = write_back uid k (serve opts now draw req_num c)

  -- A failure of `add` is only printed.
  unfoldable pub get : ℤ → ℕ → ℕ → ℕ → K → Got
  get now draw uid req_num k = got_value now draw uid req_num (table.pop_value uid k)

  -- Nothing where the ids do not fit into the 1024 bytes of `buffer`. The log is left out.
  unfoldable pub put : ℤ → ℕ → List ℕ → K → Option (ℤ × K)
  put now uid lst k =
      if ltb 1024 (12 + length lst * 8)
      then none
      else (let (code, k') =
            table.add uid (record { search_time = pos 0; update_time = now; ids = lst }) k in
          some (if◌then◌else◌ (code ==ℤ pos 0) (pos 0) (negsuc 0), k'))
