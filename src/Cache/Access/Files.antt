-- ===== src/Cache/Access/Files.antt =====
-- An access through the cache leaves every transaction on its file, whatever it evicts.
use nandfs.Base.{
  ℕ, ◌≡◌, refl, sym, ap, ◌∙◌, inl, inr, Bool, false, not, ◌&&◌, ◌||◌, leb, ◌==◌, Bool-cases, Option,
  none, some, Option-cases, update, ==_iff,
}
use nandfs.Addr.{LogAddr, empty_address}
use nandfs.Cache.State.{
  Block, cache_id_empty, entry_offset_empty, cache_is_dirty, is_cache_free, is_cached_addr,
  get_cid_from_addr, is_negative, is_positive,
}
use nandfs.Cache.Lru.{fs_error_success}
use nandfs.Cache.Find.{cache_get_lru_cid, cache_get_cid_by_addr}
use nandfs.Cache.Free.{is_inode_of}
use nandfs.Cache.Flush.{
  actual_write, fix_in_parent, redirect_entry, fix_in_transaction, cache_fix_block_dependencies,
  write_back, cache_flush_cache, evict, find_free, take_or_evict, cache_get_free_cache_id,
}
use nandfs.Cache.Access.{
  DataType, Access, load_new, access_dirty, access_clean, access_new, cache_access_cache,
}
use nandfs.World.{World, Transaction, Geometry, Sequencing, cache_of, put_transaction}

abbrev pub SameFiles : {M : Type 0} → World M → World M → Type 0
SameFiles w w1 = (j : ℕ) → (w1.transactions j).ino_num ≡ (w.transactions j).ino_num

put-SameFiles :
    {M : Type 0} (w : World M) (tid : ℕ) (t : Transaction)
    → t.ino_num ≡ (w.transactions tid).ino_num
    → SameFiles w (put_transaction w tid t)
unfolding update
put-SameFiles w tid t e j = elim (Bool-cases (j == tid)) [
  | inl f ↦ rw f (e ∙ ap (λ (x : ℕ). (w.transactions x).ino_num) (sym ((==_iff j tid).0 f)))
  | inr f ↦ rw f refl
]

module _ {M : Type 0} (s : Sequencing M) (g : Geometry) where
  actual_write-SameFiles :
      (w : World M) (buf : Block) (is_vots : Bool) (tid : ℕ)
      → SameFiles w ((actual_write s g w buf is_vots tid).2)
  unfolding actual_write
  actual_write-SameFiles w buf is_vots tid =
      let t : Transaction = w.transactions tid in
      let r = s.alloc_and_write_block w.media w.transactions buf is_vots t.prev_log_addr in
      elim (Bool-cases (r.0 == 0)) [
        | inl e ↦ rw e (put-SameFiles (record w { media = r.2 }) tid _ refl)
        | inr e ↦ rw e (λ j. refl)
      ]

  redirect_entry-SameFiles :
      (w : World M) (tid : ℕ) (a : LogAddr) (o : Option ℕ)
      → SameFiles w (redirect_entry s g w tid a o)
  unfolding redirect_entry
  redirect_entry-SameFiles w tid a none = λ j. refl
  redirect_entry-SameFiles w tid a (some i) = put-SameFiles w tid _ refl

  fix_in_transaction-SameFiles :
      (w : World M) (cid : ℕ) (a : LogAddr) → SameFiles w (fix_in_transaction s g w cid a)
  unfolding fix_in_transaction
  fix_in_transaction-SameFiles w cid a = elim (Bool-cases (is_inode_of w cid)) [
    | inl e ↦ rw e (put-SameFiles w (cache_of w cid).tid _ refl)
    | inr e ↦ elim (Bool-cases ((cache_of w cid).parent_offset == entry_offset_empty)) [
      | inl f ↦ rw (e, f) (λ j. refl)
      | inr f ↦ rw (e, f) (redirect_entry-SameFiles w (cache_of w cid).tid a _)
    ]
  ]

  fix_block_dependencies-SameFiles :
      (w : World M) (cid : ℕ) (a : LogAddr)
      → SameFiles w ((cache_fix_block_dependencies s g w cid a).1)
  unfolding cache_fix_block_dependencies fix_in_parent
  fix_block_dependencies-SameFiles w cid a =
      let b = cache_of w cid in
      elim (Bool-cases (b.parent_cid == cache_id_empty)) [
        | inl e ↦ rw e (fix_in_transaction-SameFiles w cid a)
        | inr e ↦ elim (Bool-cases ((cache_of w b.parent_cid).ref_count == 0)) [
          | inl f ↦ rw (e, f) (λ j. refl)
          | inr f ↦ rw (e, f) (λ j. refl)
        ]
      ]

  write_back-SameFiles :
      (w : World M) (cid : ℕ) (a : LogAddr) → SameFiles w ((write_back s g w cid a).2)
  unfolding write_back
  write_back-SameFiles w cid a =
      let b = cache_of w cid in
      let r = actual_write s g w b.indirect_buf false b.tid in
      let first = actual_write-SameFiles w b.indirect_buf false b.tid in
      elim (Bool-cases (cache_is_dirty w.lru cid)) [
        | inr d ↦ rw d (λ j. refl)
        | inl d ↦ elim (Bool-cases (r.0 == fs_error_success)) [
          | inl e ↦ rw (d, e) (λ j. fix_block_dependencies-SameFiles (r.2) cid (r.1) j ∙ first j)
          | inr e ↦ rw (d, e) first
        ]
      ]

  pub flush_cache-SameFiles :
      (w : World M) (cid : ℕ) (a : LogAddr) → SameFiles w ((cache_flush_cache s g w cid a).2)
  unfolding cache_flush_cache
  flush_cache-SameFiles w cid a =
      let back = write_back-SameFiles w cid a in
      elim (Bool-cases (not (is_negative cid) && leb g.buffers cid)) [
        | inl e ↦ rw e (λ j. refl)
        | inr e ↦ elim (Bool-cases (is_positive (cache_of w cid).ref_count)) [
          | inl p ↦ rw (e, p) (λ j. refl)
          | inr p ↦ elim (Bool-cases (is_cache_free w.lru cid)) [
            | inl f ↦ rw (e, p, f) (λ j. refl)
            | inr f ↦ elim (Bool-cases ((write_back s g w cid a).0 == fs_error_success)) [
              | inl ok ↦ rw (e, p, f, ok) back
              | inr ok ↦ rw (e, p, f, ok) back
            ]
          ]
        ]
      ]

  -- The state of a result, or the one before where there is none.
  abbrev state_of : {A : Type 0} → World M → Option (A × World M) → World M
  state_of w none = w
  state_of w (some (a, w1)) = w1

  evict-SameFiles : (w : World M) → SameFiles w (state_of w (evict s g w))
  unfolding evict
  evict-SameFiles w = elim (Option-cases (cache_get_lru_cid g.buffers w.lru cache_id_empty)) [
    | inl n ↦ rw n (λ j. refl)
    | inr (cid, found) ↦
        let flushed = flush_cache-SameFiles w cid empty_address in
        elim (Bool-cases (cid == cache_id_empty)) [
          | inl e ↦ rw (found, e) (λ j. refl)
          | inr e ↦
              elim (Bool-cases
                ((cache_flush_cache s g w cid empty_address).0 == fs_error_success)) [
                  | inl ok ↦ rw (found, e, ok) flushed
                  | inr ok ↦ rw (found, e, ok) flushed
                ]
        ]
  ]

  get_free_cache_id-SameFiles :
      (w : World M) → SameFiles w (state_of w (cache_get_free_cache_id s g w))
  unfolding cache_get_free_cache_id take_or_evict
  get_free_cache_id-SameFiles w = elim (Option-cases (find_free g.buffers w.lru 0)) [
    | inl n ↦ rw n (evict-SameFiles w)
    | inr (i, found) ↦ rw found (λ j. refl)
  ]

  access_new-SameFiles :
      (w : World M) (buf : Block) (old_addr : LogAddr) (parent_offset tid : ℕ)
      (data_type : DataType) (is_write : Bool)
      → SameFiles w
          (state_of w (access_new s g w buf old_addr parent_offset tid data_type is_write))
  unfolding access_new load_new access_clean
  access_new-SameFiles w buf old_addr parent_offset tid data_type is_write =
      let free = get_free_cache_id-SameFiles w in
      elim (Option-cases (cache_get_free_cache_id s g w)) [
        | inl n ↦ rw n (λ j. refl)
        | inr ((cid, w1), found) ↦
            let first : SameFiles w w1 = rw found at free in
            elim (Bool-cases (cid == cache_id_empty || is_negative cid)) [
              | inl e ↦ rw (found, e) first
              | inr e ↦ elim (Bool-cases is_write) [
                | inl b ↦ rw (found, e, b) first
                | inr b ↦ elim (Bool-cases ((s.read_block w1.media old_addr).0 == 0)) [
                  | inl ok ↦ rw (found, e, b, ok) first
                  | inr ok ↦ rw (found, e, b, ok) first
                ]
              ]
            ]
      ]

  -- An access through the cache, evictions and failures included, changes the file of no transaction.
  pub access_cache-SameFiles :
      (w : World M) (buf : Block) (old_addr : LogAddr) (parent_offset tid : ℕ)
      (data_type : DataType) (is_write : Bool) (a : Access) (w1 : World M)
      → cache_access_cache s g w buf old_addr parent_offset tid data_type is_write ≡ some (a, w1)
      → SameFiles w w1
  unfolding cache_access_cache access_dirty access_clean
  access_cache-SameFiles w buf old_addr parent_offset tid data_type is_write a w1 run =
      let all : SameFiles w (
          state_of w (cache_access_cache s g w buf old_addr parent_offset tid data_type is_write)) =
        elim (Option-cases (cache_get_cid_by_addr g.buffers w.lru old_addr)) [
          | inl n ↦ rw n (λ j. refl)
          | inr (cid, found) ↦ elim (Bool-cases (cid == cache_id_empty)) [
            | inl e ↦
                rw (found, e)
                  (access_new-SameFiles w buf old_addr parent_offset tid data_type is_write)
            | inr e ↦
                elim (Bool-cases
                  (is_cached_addr old_addr && not (get_cid_from_addr old_addr == cid))) [
                    | inl f ↦ rw (found, e, f) (λ j. refl)
                    | inr f ↦ elim (Bool-cases (cache_is_dirty w.lru cid)) [
                      | inl dirty ↦ rw (found, e, f, dirty) (λ j. refl)
                      | inr dirty ↦ rw (found, e, f, dirty) (λ j. refl)
                    ]
                  ]
          ]
        ] in
      rw run at all
