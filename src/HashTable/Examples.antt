-- ===== src/HashTable/Examples.antt =====
-- The theorems of ht.c at a table of two buckets with one entry.
use custom_os_kernel.Base.{
  ◌≡◌, refl, true, Option, none, some, [], ◌∷◌, arith, if◌then◌else◌, ◌==◌, Bool-cases, inl, inr,
}
use custom_os_kernel.Base.Int.{pos}
use custom_os_kernel.CircBuf.{CircBuf}
use custom_os_kernel.HashTable.{HashTable, ht_get, ht_put, ht_remove}
use custom_os_kernel.HashTable.Map.{WellFormed, Updated, put-Updated, remove-Updated}

abbrev one_entry : HashTable
one_entry = record {
  size = 1;
  max_size = 2;
  hash = λ k. k;
  arr = λ i. if i == 1 then record { key = 5; val = 50; address = 8; node = 16 } ∷ [] else [];
}

one_entry-WellFormed : WellFormed one_entry
one_entry-WellFormed i = elim (Bool-cases (i == 1)) [ inl e ↦ rw e (refl, tt) | inr e ↦ rw e tt ]

put-Updated_example :
    (t' : HashTable) × (ht_put 24 32 (some one_entry) 7 70 ≡ (pos 0, some t'))
    × Updated one_entry 7 (some 70) t'
unfolding ht_get
put-Updated_example =
    put-Updated one_entry one_entry-WellFormed 24 32 7 70 (omega arith) (omega arith) refl

remove-Updated_example :
    (t' : HashTable) × (addrs' : Option CircBuf) × (ht_remove (some one_entry) 5 true none
      ≡ (pos 0, some 50, some t', addrs'))
    × Updated one_entry 5 none t'
unfolding ht_get
remove-Updated_example = remove-Updated one_entry one_entry-WellFormed 5 50 true none refl
