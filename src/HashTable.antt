-- ===== src/HashTable.antt =====
-- kern/data_structures/ht.c: a hash table with separate chaining. A bucket is the entries that its
-- linked list holds, in order, each with the addresses of its list node and of its `ht_entry_t`.
-- Keys are the 32-bit patterns of `key_t`, so that the hash taken modulo the unsigned length is the
-- remainder.
pub mod Entries
pub mod Map
mod Examples
use custom_os_kernel.Base.{
  ℕ, zero, suc, ◌+◌, ◌%◌, ◌^◌, ◌*◌, Bool, Option, none, some, List, [], ◌∷◌, ◌++◌, if◌then◌else◌,
  ◌==◌, add32, sub32,
}
use custom_os_kernel.Base.Int.{ℤ, pos, neg}
use custom_os_kernel.CircBuf
use custom_os_kernel.CircBuf.{CircBuf}

-- `ht_entry_t` and where it stands.
pub record Entry : Type 0 where
  pub key : ℕ
  pub val : ℕ
  pub address : ℕ
  pub node : ℕ

-- `ht_t`
pub record HashTable : Type 0 where
  pub size : ℕ
  pub max_size : ℕ
  pub hash : ℕ → ℕ
  pub arr : ℕ → List Entry

-- What `ll_find` with `extract_key` finds, and what `ll_remove` leaves.
abbrev pub find_entry : ℕ → List Entry → Option Entry
find_entry k [] = none
find_entry k (e ∷ es) = if e.key == k then some e else find_entry k es

abbrev pub drop_entry : ℕ → List Entry → List Entry
drop_entry k [] = []
drop_entry k (e ∷ es) = if e.key == k then es else e ∷ drop_entry k es

abbrev pub index : HashTable → ℕ → ℕ
index t k = t.hash k % 2 ^ 32 % t.max_size

abbrev pub set_bucket : ℕ → List Entry → (ℕ → List Entry) → ℕ → List Entry
set_bucket i es arr j = if j == i then es else arr j

-- `malloc` says whether it gives the array. The new table is the second result.
unfoldable pub ht_init :
    (malloc : Bool)
    → Option HashTable
    → (max_size : ℕ) → (hash : Option (ℕ → ℕ)) → ℤ × Option HashTable
ht_init malloc none max_size hash = (neg 1, none)
ht_init malloc (some t) max_size none = (neg 1, some t)
ht_init malloc (some t) max_size (some hash) =
    if max_size == 0
    then (neg 1, some t)
    else if malloc
    then (pos 0, some (record { size = 0; max_size = max_size; hash = hash; arr = λ i. [] }))
    else (neg 2, some t)

-- `wanted` says that the output pointer is not NULL.
unfoldable pub ht_get : Option HashTable → (key : ℕ) → (wanted : Bool) → ℤ × Option ℕ
ht_get none key wanted = (neg 1, none)
ht_get (some t) key wanted =
    if wanted
    then elim (find_entry key (t.arr (index t key))) [
      | none ↦ (neg 2, none)
      | some e ↦ (pos 0, some e.val)
    ]
    else (neg 1, none)

-- Two addresses offered to the buffer of addresses to free; its replies are dropped.
abbrev pub note : Option CircBuf → ℕ → Option CircBuf
note none a = none
note (some c) a = (CircBuf.write (some c) a).1

unfoldable pub ht_remove :
    Option HashTable
    → (key : ℕ) → (wanted : Bool) → (addrs : Option CircBuf)
    → ℤ × Option ℕ × Option HashTable × Option CircBuf
ht_remove none key wanted addrs = (neg 1, none, none, addrs)
ht_remove (some t) key wanted addrs = elim (find_entry key (t.arr (index t key))) [
  | none ↦ (neg 2, none, some t, addrs)
  | some e ↦ (
    pos 0,
    if wanted then some e.val else none,
    some (record t {
      size = sub32 t.size 1;
      arr = set_bucket (index t key) (drop_entry key (t.arr (index t key))) t.arr;
    }),
    note (note addrs e.node) e.address,
  )
]

abbrev pub added : HashTable → Entry → HashTable
added t e = record t {
  size = add32 t.size 1;
  arr = set_bucket (index t e.key) (t.arr (index t e.key) ++ (e ∷ [])) t.arr;
}

-- `entry` and `node` are what `malloc` gives for the entry and for the list node; 0 is NULL.
unfoldable pub ht_put : (entry node : ℕ) → Option HashTable → (key val : ℕ) → ℤ × Option HashTable
ht_put entry node none key val = (neg 1, none)
ht_put entry node (some t) key val = elim (find_entry key (t.arr (index t key))) [
  | some e ↦ (neg 4, some t)
  | none ↦
      if entry == 0
      then (neg 2, some t)
      else if node == 0
      then (neg 3, some t)
      else (pos 0, some (added t (record { key = key; val = val; address = entry; node = node })))
]

-- The entry and its node are the caller's; a node that is NULL cannot be linked.
unfoldable pub ht_put_entry : Option HashTable → Option Entry → ℤ × Option HashTable
ht_put_entry none entry = (neg 1, none)
ht_put_entry (some t) none = (neg 1, some t)
ht_put_entry (some t) (some e) = elim (find_entry e.key (t.arr (index t e.key))) [
  | some e' ↦ (neg 4, some t)
  | none ↦ if e.node == 0 then (neg 3, some t) else (pos 0, some (added t e))
]

-- The list nodes of a bucket that are freed; the entries are not.
abbrev pub bucket_nodes : List Entry → List ℕ
bucket_nodes [] = []
bucket_nodes (e ∷ es) = e.node ∷ bucket_nodes es

-- The loop over the buckets from `i` on.
abbrev pub destroy_buckets : (left i : ℕ) → (ℕ → List Entry) → List ℕ
destroy_buckets zero i arr = []
destroy_buckets (suc k) i arr = bucket_nodes (arr i) ++ destroy_buckets k (i + 1) arr

-- The nodes that are freed; the array is freed after them.
unfoldable pub ht_destroy : Option HashTable → List ℕ
ht_destroy none = []
ht_destroy (some t) = destroy_buckets t.max_size 0 t.arr
