-- ===== src/BucketIndex/Order.antt =====
-- The order of the entries, and what the updates and the queries do to it.
use covsight_core.Prelude.{
  ℕ, suc, ◌≤◌, ◌<◌, ◌≡◌, [], ◌∷◌, ◌++◌, ◌&&◌, Option, none, some, ◌==◌, leb, if◌then◌else◌, arith,
  refl, All,
}
use covsight_core.BucketIndex.{
  BucketIndexEntry, BucketIndex, add_bucket, buckets_in_range, skips, buckets_for_name, next_seq,
}

-- The sequence numbers ascend strictly, from `lo` on.
abbrev pub StrictFrom : ℕ → BucketIndex → Type 0
StrictFrom lo [] = Unit
StrictFrom lo (e ∷ es) = (lo ≤ e.bucket_seq) × StrictFrom (suc e.bucket_seq) es

abbrev pub IsSorted : BucketIndex → Type 0
IsSorted idx = StrictFrom 0 idx

-- The entry of a bucket.
abbrev pub find : ℕ → BucketIndex → Option BucketIndexEntry
find seq [] = none
find seq (e ∷ es) = if e.bucket_seq == seq then some e else find seq es

add_bucket-StrictFrom :
    (lo : ℕ) (entry : BucketIndexEntry) (es : BucketIndex)
    → lo ≤ entry.bucket_seq
    → StrictFrom lo es
    → StrictFrom lo (add_bucket entry es)
unfolding add_bucket
add_bucket-StrictFrom lo entry [] h s = (h, tt)
add_bucket-StrictFrom lo entry (e ∷ es) h s =
    ground (arith, add_bucket-StrictFrom (suc e.bucket_seq) entry es)

find-add_bucket :
    (entry : BucketIndexEntry) (es : BucketIndex) (seq : ℕ)
    → find seq (add_bucket entry es) ≡ (if entry.bucket_seq == seq then some entry else find seq es)
unfolding add_bucket
find-add_bucket entry [] seq = refl
find-add_bucket entry (e ∷ es) seq = ground (arith, find-add_bucket entry es seq)

-- Adding or updating a bucket in an index sorted by strictly ascending sequence numbers keeps it so,
-- gives the bucket the new entry, and leaves the entry of every other bucket as it was.
pub add_bucket_lem :
    (entry : BucketIndexEntry) (idx : BucketIndex)
    → IsSorted idx
    → IsSorted (add_bucket entry idx)
      × ((seq : ℕ)
          → find seq (add_bucket entry idx)
            ≡ (if entry.bucket_seq == seq then some entry else find seq idx))
add_bucket_lem entry idx s =
    (add_bucket-StrictFrom 0 entry idx (omega arith) s, find-add_bucket entry idx)

next_seq-above :
    (lo n : ℕ) (e : BucketIndexEntry) (es : BucketIndex)
    → n ≡ next_seq (e ∷ es)
    → StrictFrom lo (e ∷ es)
    → All (λ x. x.bucket_seq < n) (e ∷ es)
unfolding next_seq
next_seq-above lo n e [] h s = omega arith
next_seq-above lo n e (f ∷ es) h s =
    let later = next_seq-above (suc e.bucket_seq) n f es h s.1 in
    (omega (arith, later.0, s.1.0), later)

add_bucket-last :
    (entry : BucketIndexEntry) (es : BucketIndex)
    → All (λ x. x.bucket_seq < entry.bucket_seq) es
    → add_bucket entry es ≡ es ++ entry ∷ []
unfolding add_bucket
add_bucket-last entry [] h = refl
add_bucket-last entry (e ∷ es) h = ground (arith, add_bucket-last entry es)

-- On a sorted index the number that `next_seq` hands out is above every number in use, so a bucket
-- that is added under it comes last.
pub add_bucket-next_seq :
    (entry : BucketIndexEntry) (idx : BucketIndex)
    → IsSorted idx
    → entry.bucket_seq ≡ next_seq idx
    → add_bucket entry idx ≡ idx ++ entry ∷ []
add_bucket-next_seq entry [] s e = add_bucket-last entry [] tt
add_bucket-next_seq entry (x ∷ xs) s e =
    add_bucket-last entry (x ∷ xs) (next_seq-above 0 entry.bucket_seq x xs e s)

-- The buckets whose range of name ids holds the given one.
abbrev pub holding : ℕ → BucketIndex → BucketIndex
holding name_id [] = []
holding name_id (e ∷ es) =
    if leb e.min_name_id name_id && leb name_id e.max_name_id
    then e ∷ holding name_id es
    else holding name_id es

-- A query by name within a time range returns, in order, exactly the buckets that the query by time
-- range returns and whose name range holds the name; with no times given, only the name range counts.
pub buckets_for_name-in_range :
    (name_id a b : ℕ) (idx : BucketIndex)
    → (buckets_for_name name_id (some a) (some b) idx ≡ holding name_id (buckets_in_range a b idx))
      × (buckets_for_name name_id none none idx ≡ holding name_id idx)
unfolding buckets_for_name buckets_in_range skips
buckets_for_name-in_range name_id a b [] = (refl, refl)
buckets_for_name-in_range name_id a b (e ∷ es) =
    ground (arith, buckets_for_name-in_range name_id a b es)
