-- ===== src/Labeling/State.antt =====
-- The structures of Labeling/rtable.h. A pointer is the address of an allocated structure; a linked
-- list, with the `next` field of its nodes, is the list of their addresses. The locks have no state
-- here: one thread at a time works on the tables.
use bgpmon.Base.{
  ℕ, ◌+◌, ◌-◌, ◌*◌, ◌/◌, ◌%◌, ◌^◌, Bool, List, [], ◌∷◌, ◌&&◌, ◌==◌, if◌then◌else◌, ltb, true, false,
}
use bgpmon.Labeling.Heap.{Heap}

-- The bytes of the address are as many as the length needs.
pub record Prefix : Type 0 where
  pub afi : ℕ
  pub safi : ℕ
  pub p_len : ℕ
  pub paddr : List ℕ

pub record PrefixNode : Type 0 where
  pub data_attr : ℕ
  pub originated_ts : ℕ
  pub key_prefix : Prefix

pub record AsPath : Type 0 where
  pub as_path_data : List ℕ
  pub as_path_id : ℕ
  pub ref_count : ℕ

pub record AttrNode : Type 0 where
  pub ref_count : ℕ
  pub prefix_ref_node : List ℕ
  pub as_path : ℕ
  pub bucket_index : ℕ
  pub basic_attr_len : ℕ
  pub total_attr_len : ℕ
  pub attr : List ℕ

pub record Entry : Type 0 where
  pub node : List ℕ
  pub node_count : ℕ

-- A prefix table or an attribute table: the two structures differ in the name of their counter.
pub record Table : Type 0 where
  pub count : ℕ
  pub table_size : ℕ
  pub ocupied_size : ℕ
  pub max_node_count : ℕ
  pub max_collision : ℕ
  pub entries : ℕ → Entry

-- The counters of a session that the tables update.
pub record Stats : Type 0 where
  pub nann_rcvd : ℕ
  pub dann_rcvd : ℕ
  pub spath_rcvd : ℕ
  pub dpath_rcvd : ℕ
  pub with_rcvd : ℕ
  pub duwi_rcvd : ℕ
  pub memory_used : ℕ
  pub prefix_count : ℕ
  pub attr_count : ℕ

-- The tables of a session, the structures that they point to, and the next address to allocate.
pub record Rib : Type 0 where
  pub prefixes : Heap PrefixNode
  pub attributes : Heap AttrNode
  pub paths : Heap AsPath
  pub next_address : ℕ
  pub prefix_table : Table
  pub attribute_table : Table
  pub stats : Stats

-- The sizes of the structures, on a machine with 64-bit pointers.
abbrev pub size_pointer : ℕ
size_pointer = 8

abbrev pub size_prefix_ref_node : ℕ
size_prefix_ref_node = 16

abbrev pub size_prefix_node : ℕ
size_prefix_node = 24

abbrev pub size_attr_node : ℕ
size_attr_node = 96

abbrev pub size_entry : ℕ
size_entry = 16

abbrev pub size_attr_entry : ℕ
size_attr_entry = 72

abbrev pub size_prefix_table : ℕ
size_prefix_table = 24

abbrev pub size_attr_table : ℕ
size_attr_table = 32

-- The bytes of a prefix of x bits.
abbrev pub prefix_size : ℕ → ℕ
prefix_size x = if (x / 8) * 8 == x then x / 8 else x / 8 + 1

abbrev pub maxv : ℕ → ℕ → ℕ
maxv x y = if ltb y x then x else y

-- The additions and subtractions of unsigned numbers of w bits.
abbrev pub plus : ℕ → ℕ → ℕ → ℕ
plus w a b = (a + b) % 2 ^ w

abbrev pub minus : ℕ → ℕ → ℕ → ℕ
minus w a b = (a + (2 ^ w - b)) % 2 ^ w

-- The bytes of a prefix as they lie in memory, the low byte of the address family first.
abbrev pub prefix_bytes : Prefix → List ℕ
prefix_bytes p = p.afi % 256 ∷ p.afi / 256 ∷ p.safi ∷ p.p_len ∷ p.paddr

-- memcmp, of as many bytes as there are.
abbrev pub same_bytes : List ℕ → List ℕ → Bool
same_bytes [] [] = true
same_bytes [] (y ∷ ys) = false
same_bytes (x ∷ xs) [] = false
same_bytes (x ∷ xs) (y ∷ ys) = (x == y) && same_bytes xs ys

abbrev pub used : ℕ → Rib → Rib
used n r = record r { stats = record r.stats { memory_used = plus 64 r.stats.memory_used n } }

abbrev pub unused : ℕ → Rib → Rib
unused n r = record r { stats = record r.stats { memory_used = minus 64 r.stats.memory_used n } }
