-- ===== src/HashTable/Map.antt =====
-- A hash table is a finite map: what each operation does to the lookups of every key.
use custom_os_kernel.Base.{
  ℕ, ◌≡◌, ◌≢◌, refl, Bool, true, false, Bool-cases, inl, inr, Option, none, some, List, [], ◌∷◌,
  ◌++◌, arith, ◌==◌, if◌then◌else◌, Option-cases, sub32,
}
use custom_os_kernel.Base.Int.{pos, neg}
use custom_os_kernel.CircBuf.{CircBuf}
use custom_os_kernel.HashTable.{
  HashTable, Entry, find_entry, drop_entry, index, set_bucket, added, note, ht_get, ht_put,
  ht_remove,
}
use custom_os_kernel.HashTable.Entries.{
  Distinct, find-append_self, find-append_other, find-drop_other, find-drop_self, Distinct-append,
  Distinct-drop,
}

-- The keys of each bucket are distinct.
abbrev pub WellFormed : HashTable → Type 0
WellFormed t = (i : ℕ) → Distinct (t.arr i)

-- `t'` maps the key to `v`, and every other key as `t` does.
pub record Updated (t : HashTable) (key : ℕ) (v : Option ℕ) (t' : HashTable) : Type 0 where
  pub wf : WellFormed t'
  pub get : ht_get (some t') key true ≡ elim v [ none ↦ (neg 2, none) | some x ↦ (pos 0, some x) ]
  pub others : (j : ℕ) → key ≢ j → ht_get (some t') j true ≡ ht_get (some t) j true

get-none :
    (t : HashTable) (key : ℕ)
    → ht_get (some t) key true ≡ (neg 2, none)
    → find_entry key (t.arr (index t key)) ≡ none
unfolding ht_get
get-none t key away = elim (Option-cases (find_entry key (t.arr (index t key)))) [
  | inl e ↦ e
  | inr (x, e) ↦ ground (arith, e, away)
]

get-some :
    (t : HashTable) (key val : ℕ)
    → ht_get (some t) key true ≡ (pos 0, some val)
    → (e : Entry) × (find_entry key (t.arr (index t key)) ≡ some e) × (e.val ≡ val)
unfolding ht_get
get-some t key val found = elim (Option-cases (find_entry key (t.arr (index t key)))) [
  | inl e ↦ ground (arith, e, found)
  | inr (x, e) ↦ (x, e, ground (arith, e, found))
]

module _ (t : HashTable) (wf : WellFormed t) where
  set_bucket-WellFormed :
      (i : ℕ) (es : List Entry) → Distinct es → (j : ℕ) → Distinct (set_bucket i es t.arr j)
  set_bucket-WellFormed i es d j = elim (Bool-cases (j == i)) [
    | inl e ↦ rw e d
    | inr e ↦ rw e (wf j)
  ]

  -- A bucket that changes only at `key`, in lookups.
  bucket-others :
      (key : ℕ) (es : List Entry) (j : ℕ)
      → (find_entry j es ≡ find_entry j (t.arr (index t key)))
      → find_entry j (set_bucket (index t key) es t.arr (index t j))
        ≡ find_entry j (t.arr (index t j))
  bucket-others key es j same = elim (Bool-cases (index t j == index t key)) [
    | inl e ↦
        let at : index t j ≡ index t key = ground arith in
        rw at (let itself : (index t key == index t key) ≡ true = ground arith in rw itself same)
    | inr e ↦ rw e refl
  ]

  added-Updated :
      (e : Entry)
      → find_entry e.key (t.arr (index t e.key)) ≡ none
      → Updated t e.key (some e.val) (added t e)
  unfolding ht_get
  added-Updated e away =
      let i = index t e.key in
      let es = t.arr i in
      let itself : (i == i) ≡ true = ground arith in
      record {
        wf = set_bucket-WellFormed i (es ++ (e ∷ [])) (Distinct-append es e (wf i) away);
        get = rw (itself, find-append_self es e away) refl;
        others =
            λ j ne. rw (bucket-others e.key (es ++ (e ∷ [])) j (find-append_other es e j ne)) refl;
      }

  -- On a well-formed table, a key that is looked up in vain is put, where malloc gives an entry and a
  -- node: the call returns 0, the table stays well formed and maps the key to the value, and every
  -- other key as before.
  pub put-Updated :
      (entry node key val : ℕ)
      → entry ≢ 0
      → node ≢ 0
      → ht_get (some t) key true ≡ (neg 2, none)
      → (t' : HashTable) × (ht_put entry node (some t) key val ≡ (pos 0, some t'))
        × Updated t key (some val) t'
  unfolding ht_put
  put-Updated entry node key val ne ne' away =
      let e : Entry = record { key = key; val = val; address = entry; node = node } in
      let gone = get-none t key away in
      let given : (entry == 0) ≡ false = ground (arith, ne) in
      let given' : (node == 0) ≡ false = ground (arith, ne') in
      (added t e, rw (gone, ht_put) (rw (given, given') refl), added-Updated e gone)

  -- On a well-formed table, a key that is found is removed: the call returns 0 and its value, where
  -- it is wanted, the table stays well formed and does not map the key any more, and maps every other
  -- key as before.
  pub remove-Updated :
      (key val : ℕ) (wanted : Bool) (addrs : Option CircBuf)
      → ht_get (some t) key true ≡ (pos 0, some val)
      → (t' : HashTable) × (addrs' : Option CircBuf) × (ht_remove (some t) key wanted addrs
          ≡ (pos 0, if wanted then some val else none, some t', addrs'))
        × Updated t key none t'
  unfolding ht_remove ht_get
  remove-Updated key val wanted addrs found =
      let (e, at, is_val) = get-some t key val found in
      let i = index t key in
      let es = t.arr i in
      let itself : (i == i) ≡ true = ground arith in
      (
        record t { size = sub32 t.size 1; arr = set_bucket i (drop_entry key es) t.arr },
        note (note addrs e.node) e.address,
        rw (at, ht_remove) (rw is_val refl),
        record {
          wf = set_bucket-WellFormed i (drop_entry key es) (Distinct-drop es key (wf i));
          get = rw (itself, find-drop_self es key (wf i)) refl;
          others = λ j ne.
              rw (bucket-others key (drop_entry key es) j (find-drop_other es key j ne)) refl;
        },
      )
