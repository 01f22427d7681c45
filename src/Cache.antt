-- ===== src/Cache.antt =====
-- internal/cache/cache.go: the bounded LRU cache, every operation of it.
--
-- A `*list.Element` is a node with the address that the allocator gave it; its entry never changes,
-- so the map holds the node itself. The list is the nodes from front to back. What `rand.Read`
-- returns is an argument, `none` for an error. Each operation holds the mutex from start to end,
-- so an operation is one step.
pub mod Budget
pub mod Nodes
pub mod Front
pub mod Invariant
pub mod Eviction
pub mod Calls
pub mod Retention
pub mod Memory
pub mod Held
pub mod Recency
use mcp_content_guard.Base.{
  ℕ, zero, suc, ◌+◌, ◌*◌, ◌/◌, ◌%◌, ◌^◌, Bool, true, false, ◌&&◌, ◌||◌, Option, none, some, List,
  [], ◌∷◌, ltb, ◌==◌, if◌then◌else◌, length,
}
use mcp_content_guard.Base.Bytes.{Bytes}
use mcp_content_guard.Base.Int64.{Int64, add64, sub64, lt64, le64, len64}
use mcp_content_guard.Base.Dictionary.{Dictionary, lookup, delete, put}

abbrev pub default_max_bytes : Int64
default_max_bytes = 256 * 2 ^ 20

-- An `entry` in its list element.
pub record Node : Type 0 where
  pub addr : ℕ
  pub id : Bytes
  pub content : Bytes

pub record Cache : Type 0 where
  pub items : Dictionary Node
  pub lru : List Node
  pub max_bytes : Int64
  pub cur_bytes : Int64
  -- the next address that the allocator gives
  pub next : ℕ

unfoldable pub new_with_capacity : Int64 → Cache
new_with_capacity max_bytes = record {
  items = [];
  lru = [];
  max_bytes = if le64 max_bytes 0 then default_max_bytes else max_bytes;
  cur_bytes = 0;
  next = 0;
}

unfoldable pub new : Cache
unfolding new_with_capacity
new = new_with_capacity default_max_bytes

-- l.Back()
unfoldable pub back : List Node → Option Node
back [] = none
back (e ∷ []) = some e
back (e ∷ f ∷ l) = back (f ∷ l)

-- l.Remove(e), for the element at an address
unfoldable pub remove_node : ℕ → List Node → List Node
remove_node a [] = []
remove_node a (e ∷ l) = if e.addr == a then l else e ∷ remove_node a l

unfoldable pub has_node : ℕ → List Node → Bool
has_node a [] = false
has_node a (e ∷ l) = (e.addr == a) || has_node a l

-- l.MoveToFront(e): nothing happens if the element is not in the list
unfoldable pub move_to_front : Node → List Node → List Node
unfolding has_node remove_node
move_to_front e l = if has_node e.addr l then e ∷ remove_node e.addr l else l

unfoldable pub evict_oldest : Cache → Cache
unfolding back remove_node
evict_oldest c = elim (back c.lru) [
  | none ↦ c
  | some e ↦ record c {
    items = delete e.id c.items;
    lru = remove_node e.addr c.lru;
    cur_bytes = sub64 c.cur_bytes (len64 e.content);
  }
]

-- The test of the loop in `Store`.
unfoldable pub over_budget : Int64 → Cache → Bool
over_budget size c = lt64 c.max_bytes (add64 c.cur_bytes size) && ltb 0 (length c.lru)

-- The loop. Each round removes an element, so the length of the list is fuel enough.
unfoldable pub evict_loop : ℕ → Int64 → Cache → Cache
unfolding over_budget evict_oldest
evict_loop zero size c = c
evict_loop (suc fuel) size c =
    let rest = evict_loop fuel size (evict_oldest c) in if over_budget size c then rest else c

hex_digit : ℕ → ℕ
hex_digit n = if ltb n 10 then b'0' + n else 87 + n

-- hex.EncodeToString
unfoldable pub hex : Bytes → Bytes
unfolding hex_digit
hex [] = []
hex (b ∷ s) = hex_digit (b / 16 % 16) ∷ hex_digit (b % 16) ∷ hex s

unfoldable pub new_id : Option Bytes → Option Bytes
unfolding hex
new_id none = none
new_id (some random) = some (hex random)

-- The element that PushFront allocates.
abbrev pub new_node : Bytes → Bytes → Cache → Node
new_node id content c = record { addr = c.next; id = id; content = content }

-- PushFront, the map entry and the byte count, after the loop.
unfoldable pub admit : Bytes → Bytes → Cache → Cache
admit id content c =
    let el = new_node id content c in
    record c {
      items = put id el c.items;
      lru = el ∷ c.lru;
      cur_bytes = add64 c.cur_bytes (len64 content);
      next = suc c.next;
    }

unfoldable pub store : Option Bytes → Bytes → Cache → Cache × Option Bytes
unfolding new_id evict_loop admit
store random content c = elim (new_id random) [
  | none ↦ (c, none)
  | some id ↦ (admit id content (evict_loop (length c.lru) (len64 content) c), some id)
]

unfoldable pub get : Bytes → Cache → Cache × Option Bytes
unfolding move_to_front
get id c = elim (lookup id c.items) [
  | none ↦ (c, none)
  | some e ↦ (record c { lru = move_to_front e c.lru }, some e.content)
]

unfoldable pub len : Cache → ℕ
len c = length c.lru

unfoldable pub bytes : Cache → Int64
bytes c = c.cur_bytes
