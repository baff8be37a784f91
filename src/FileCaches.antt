-- ===== src/FileCaches.antt =====
-- `FileCache`, `LRUCache` and `FileCacheMan` of ttw/file/filecache.h and filecache.cc.
-- A `Node*` is an address, 0 the null pointer; the fields of the nodes are functions of the address, and a use of an
-- address that is null or was deleted is a fault, `none`. What `File` reads is a value: `File(path, true)` is the parameter
-- `opened`. The address that `new` returns is the argument `fresh`.
pub mod Chains
pub mod Moves
pub mod Touch
pub mod Evict
pub mod Insert
pub mod Added
pub mod Recent
pub mod Used
pub mod Renewed
pub mod Lru
pub mod Runs
pub mod Clears
pub mod Man
mod Tests
use ttw.Prelude.{
  ℕ, ◌+◌, ◌<◌, Bool, true, false, not, ◌&&◌, Option, none, some, List, [], ◌∷◌, ltb, ◌==◌,
  if◌then◌else◌, take,
}
use ttw.Prelude.Int.{ℤ, pos, negsuc, incr, decr}
use ttw.Prelude.Text.{Bytes}
use ttw.Prelude.Dict.{find, assign, remove, bytes_key}

-- `File` as far as the caches read it: its path, its data, and its size, nothing for -1.
pub record File : Type 0 where
  pub path : Bytes
  pub file_data : Option Bytes
  pub size : Option ℕ

pub record FileCache : Type 0 where
  pub path : Bytes
  pub is_valid : Bool
  pub contents : Option Bytes

abbrev pub invalid : FileCache
invalid = record { path = []; is_valid = false; contents = none }

abbrev pub load : File → Option Bytes → Option ℕ → FileCache
load file (some bytes) (some n) = record {
  path = file.path;
  is_valid = true;
  contents = some (take n bytes);
}
load file _ _ = invalid

-- The constructor.
unfoldable pub file_cache : Option File → FileCache
file_cache none = invalid
file_cache (some file) = load file file.file_data file.size

pub get_file_data : FileCache → Option Bytes
get_file_data c = if c.is_valid then c.contents else none

pub set_file_data : Bytes → FileCache → FileCache
set_file_data bytes c = record c { contents = some bytes }

pub record LruCache : Type 0 where
  pub next : ℕ → ℕ
  pub pre : ℕ → ℕ
  pub file : ℕ → FileCache
  pub alive : ℕ → Bool
  pub head : ℕ
  pub tail : ℕ
  pub max : ℤ
  pub count : ℤ
  pub cache_node : List (Bytes × ℕ)

infixl 5 ◌>>=◌
abbrev pub ◌>>=◌ {ℓ κ} : {A : Type ℓ} {B : Type κ} → Option A → (A → Option B) → Option B
none >>= f = none
some a >>= f = f a

abbrev pub write {ℓ} : {A : Type ℓ} → (ℕ → A) → ℕ → A → ℕ → A
write h p a q = if q == p then a else h q

abbrev pub live : LruCache → ℕ → Bool
live s p = not (p == 0) && s.alive p

-- `p->next`, `p->pre`, and writes to them.
pub read_next : ℕ → LruCache → Option ℕ
read_next p s = if live s p then some (s.next p) else none

pub read_pre : ℕ → LruCache → Option ℕ
read_pre p s = if live s p then some (s.pre p) else none

pub set_next : ℕ → ℕ → LruCache → Option LruCache
set_next p q s = if live s p then some (record s { next = write s.next p q }) else none

pub set_pre : ℕ → ℕ → LruCache → Option LruCache
set_pre p q s = if live s p then some (record s { pre = write s.pre p q }) else none

pub delete : ℕ → LruCache → Option LruCache
delete p s = if live s p then some (record s { alive = write s.alive p false }) else none

-- `new Node(t)`
pub new_node : ℕ → FileCache → LruCache → LruCache
new_node fresh t s = record s {
  next = write s.next fresh 0;
  pre = write s.pre fresh 0;
  file = write s.file fresh t;
  alive = write s.alive fresh true;
}

pub lru_cache : LruCache → ℤ → LruCache
lru_cache h max = record h { head = 0; tail = 0; max = max; count = pos 0; cache_node = [] }

abbrev move_inner : ℕ → LruCache → Option LruCache
unfolding read_next read_pre set_next set_pre
move_inner node s = do
  p ← read_pre node s
  n ← read_next node s
  s1 ← set_next p n s
  n1 ← read_next node s1
  p1 ← read_pre node s1
  s2 ← set_pre n1 p1 s1
  s3 ← set_pre node 0 s2
  s4 ← set_next node s3.head s3
  s5 ← set_pre s4.head node s4
  some (record s5 { head = node })

abbrev move_last : ℕ → LruCache → Option LruCache
unfolding read_next read_pre set_next set_pre
move_last node s = do
  t ← read_pre s.tail s
  let s1 = record s { tail = t }
  s2 ← set_next s1.tail 0 s1
  s3 ← set_next node s2.head s2
  s4 ← set_pre s3.head node s3
  let s5 = record s4 { head = node }
  set_pre s5.head 0 s5

-- `moveToHead(Node*)`
pub move_to_head : ℕ → LruCache → Option LruCache
unfolding read_next read_pre set_next set_pre
move_to_head node s =
    if node == 0
    then some s
    else if node == s.head
    then some s
    else if not (node == s.tail)
    then move_inner node s
    else move_last node s

-- `addToHead(Node*)`
pub add_node : ℕ → LruCache → Option LruCache
unfolding set_next set_pre
add_node node s =
    if not (s.head == 0)
    then (do
      s1 ← set_next node s.head s
      s2 ← set_pre s1.head node s1
      some (record s2 { head = node; count = incr s2.count }))
    else some (record s { head = node; tail = node; count = incr s.count })

abbrev drop_tail : LruCache → Option LruCache
unfolding delete read_pre set_next
drop_tail s =
    if not (s.tail == 0) && s.tail == s.head
    then (do s1 ← delete s.tail s; some (record s1 { tail = 0; head = 0; count = decr s1.count }))
    else (do
      temp ← read_pre s.tail s
      s1 ← delete s.tail s
      let s2 = record s1 { tail = temp }
      s3 ← set_next s2.tail 0 s2
      some (record s3 { count = decr s3.count }))

-- `delCacheNode`
pub del_cache_node : LruCache → Option LruCache
unfolding delete read_pre set_next remove
del_cache_node s =
    if s.tail == 0
    then drop_tail s
    else if live s s.tail
    then drop_tail (record s { cache_node = remove (s.file s.tail).path s.cache_node })
    else none

-- `addToHead(File::ptr, bool)`: the state and the cache, none for the null pointer.
pub add_file : ℕ → Option File → Bool → LruCache → Option (Option FileCache × LruCache)
unfolding file_cache new_node del_cache_node add_node assign
add_file fresh file del s =
    let t = file_cache file in
    if not t.is_valid then some (none, s) else (do
      s1 ← if del then del_cache_node (new_node fresh t s) else some (new_node fresh t s)
      s2 ← add_node fresh (record s1 { cache_node = assign t.path fresh s1.cache_node })
      some (some (s2.file fresh), s2))

abbrev pub less : ℤ → ℤ → Bool
less (pos a) (pos b) = ltb a b
less (pos a) (negsuc b) = false
less (negsuc a) (pos b) = true
less (negsuc a) (negsuc b) = ltb b a

-- `getFileCache`, where no other call comes between its two parts.
pub get_file_cache : (Bytes → File) → ℕ → Bytes → LruCache → Option (Option FileCache × LruCache)
unfolding find move_to_head add_file
get_file_cache opened fresh path s = elim (find path s.cache_node) [
  | some node ↦ (do
    s1 ← move_to_head node s
    if live s1 node then some (some (s1.file node), s1) else none)
  | none ↦ add_file fresh (some (opened path)) (not (less s.count s.max)) s
]

abbrev delete_all : List (Bytes × ℕ) → LruCache → Option LruCache
unfolding delete
delete_all [] s = some s
delete_all ((_, p) ∷ l) s = delete p s >>= delete_all l

pub clear : LruCache → Option LruCache
unfolding delete
clear s = do
  s1 ← delete_all s.cache_node s
  some (record s1 { cache_node = []; tail = 0; head = 0; count = pos 0 })

pub set_max : ℤ → LruCache → LruCache
set_max size s = record s { max = size }

pub is_exists : Bytes → LruCache → Bool
unfolding find
is_exists path s = elim (find path s.cache_node) [ none ↦ false | some _ ↦ true ]
