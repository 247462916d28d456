-- ===== src/Core/Lot/Grow.antt =====
-- core/src/parking_lot.rs: `HashTable::new`, `grow_hashtable` and `rehash_bucket_into`, with all
-- buckets of the old table locked.
pub mod Rehash
pub mod Laws
mod Tests
use parking_lot.Prelude.{
  ℕ, zero, suc, ◌+◌, ◌*◌, ◌%◌, ◌^◌, Option, none, some, ◌==◌, leb, if◌then◌else◌, ◌>>=◌, update,
}
use parking_lot.Core.FairTimeout.{FairTimeout, u32_mod}
use parking_lot.Core.Hash.{load_factor, hash, Sizes, new_sizes}
use parking_lot.Core.Queue.{Ptr, null, Memory, next_of, key_of, Bucket, set_next}
use parking_lot.Core.Lot.{Lot}

-- `Bucket::new`
abbrev pub new_bucket : (now seed : ℕ) → Bucket
new_bucket now seed = record {
  queue_head = null;
  queue_tail = null;
  fair_timeout = record { timeout = now; seed = seed };
}

abbrev pub new_table : (now : ℕ) → Sizes → Memory → Lot
new_table now z m = record {
  memory = m;
  entries = λ i. new_bucket now ((i + 1) % u32_mod);
  hash_bits = z.hash_bits;
}

-- The number of entries of a table.
abbrev pub entries_len : Lot → ℕ
entries_len s = 2 ^ s.hash_bits

-- One round of the loop of `rehash_bucket_into`.
pub rehash_round : Ptr → Lot → Lot
rehash_round current t =
    let h = hash (key_of t.memory current) t.hash_bits in
    let b = t.entries h in
    let b' =
      if b.queue_tail == null
      then record b { queue_head = current; queue_tail = current }
      else record b { queue_tail = current } in
    let m = if b.queue_tail == null then t.memory else set_next b.queue_tail current t.memory in
    record t { memory = set_next current null m; entries = update t.entries h b' }

pub rehash_loop : ℕ → (current : Ptr) → Lot → Option Lot
rehash_loop zero current t = none
rehash_loop (suc f) current t =
    let rest = rehash_loop f (next_of t.memory current) (rehash_round current t) in
    if current == null then some t else rest

-- The first `n` buckets of the old table, in their order.
pub rehash_first : (fuel : ℕ) → (old : ℕ → Bucket) → ℕ → Lot → Option Lot
rehash_first fuel old zero t = some t
rehash_first fuel old (suc n) t =
    rehash_first fuel old n t >>= λ t'. rehash_loop fuel (old n).queue_head t'

pub grow_hashtable : (now fuel num_threads : ℕ) → Lot → Option Lot
grow_hashtable now fuel num_threads s =
    if leb (load_factor * num_threads) (entries_len s)
    then some s
    else new_sizes num_threads >>= λ z.
        rehash_first fuel s.entries (entries_len s) (new_table now z s.memory)
