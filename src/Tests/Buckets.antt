-- ===== src/Tests/Buckets.antt =====
-- Concrete states of the routing table, and the theorems applied to them.
use dtndht.Base.{
  ℕ, ◌+◌, ◌<◌, Bytes, same, true, false, List, [], ◌∷◌, none, some, ◌≡◌, ◌≢◌, ◌↔◌, refl, arith,
  drop,
}
use dtndht.Net.{Family, SockAddr}
use dtndht.Ids.{split_bit, bucket_middle}
use dtndht.Routing.{Node, Bucket, Routing, not_after, in_bucket, find_bucket, find_node}
use dtndht.Routing.Find.{find_bucket_iff}
use dtndht.Routing.Update.{Confirm, split_bucket}
use dtndht.Routing.Learn.{learn}
use dtndht.Routing.Invariant.{IsRouting, IsBucket, IsPlaced}
use dtndht.Routing.Depth.{Aligned, full_bucket_splits}
use dtndht.Routing.Halves.{split_bucket-IsRouting}
use dtndht.Routing.Lookup.{find_node-split_bucket}
use dtndht.Routing.Keeps.{routing_of, learn-IsRouting}
use dtndht.Tests.{program, id_of, id_of-IsId, v4, below_128}

abbrev pub node : ℕ → Node
node n = record {
  id = id_of n;
  ss = v4 n;
  sslen = 16;
  time = 50;
  reply_time = 50;
  pinged_time = 0;
  pinged = 0;
}

abbrev pub no_address : SockAddr
no_address = record { family = Family.unspec; addr = []; port = 0 }

abbrev pub bucket : Bytes → ℕ → List Node → Bucket
bucket first count nodes = record {
  af = Family.inet;
  first = first;
  count = count;
  time = 40;
  nodes = nodes;
  cached = no_address;
  cachedlen = 0;
}

abbrev pub one : Routing
one = record {
  myid = id_of 77;
  buckets = bucket (id_of 0) 2 (node 3 ∷ node 200 ∷ []) ∷ [];
  buckets6 = [];
  mybucket_grow_time = 0;
  mybucket6_grow_time = 0;
}

abbrev two : Routing
two = record one {
  buckets = bucket (id_of 0) 1 (node 3 ∷ []) ∷ bucket (id_of 128) 1 (node 200 ∷ []) ∷ [];
}

splits : split_bucket Family.inet 0 one ≡ some (two, [])
unfolding program
splits = refl

pub one-IsRouting : IsRouting one
unfolding program same
one-IsRouting = record {
  table4 = (
    record {
      family = refl;
      first_id = id_of-IsId 0 (omega arith);
      sorted = tt;
      counted = refl;
      capacity = omega arith;
      placed = (
        record { is_id = id_of-IsId 3 (omega arith); in_af = refl; ranged = refl },
        (record { is_id = id_of-IsId 200 (omega arith); in_af = refl; ranged = refl }, tt),
      );
      distinct = ((refl, tt), (tt, tt));
    },
    tt,
  );
  table6 = tt;
  zero4 = refl;
  zero6 = tt;
}

inet-known : Family.inet ≢ Family.unspec
inet-known = cc

zero_first : not_after (id_of 0) (id_of 200) ≡ true
unfolding program
zero_first = refl

find_bucket_iff_example :
    (find_bucket (id_of 200) two.buckets ≡ some 1)
    ↔ (in_bucket (id_of 200) (drop 1 two.buckets) ≡ true)
find_bucket_iff_example =
    find_bucket_iff (id_of 200) (bucket (id_of 0) 1 (node 3 ∷ []))
      (bucket (id_of 128) 1 (node 200 ∷ []) ∷ []) (below_128, tt) zero_first 1

split_bucket-IsRouting_example : IsRouting two
split_bucket-IsRouting_example =
    split_bucket-IsRouting Family.inet 0 (bucket (id_of 0) 2 (node 3 ∷ node 200 ∷ [])) one two []
      inet-known refl one-IsRouting splits

find_node-split_bucket_example :
    find_node (id_of 200) Family.inet two ≡ find_node (id_of 200) Family.inet one
find_node-split_bucket_example =
    find_node-split_bucket Family.inet 0 (bucket (id_of 0) 2 (node 3 ∷ node 200 ∷ [])) one two []
      (id_of 200) inet-known refl one-IsRouting splits

learn-IsRouting_example :
    IsRouting (routing_of (learn 100 false (id_of 9) (v4 9) 16 Confirm.reply one))
learn-IsRouting_example =
    learn-IsRouting 100 false (id_of 9) (v4 9) 16 Confirm.reply inet-known
      (id_of-IsId 9 (omega arith)) one one-IsRouting

abbrev full : Bucket
full =
    bucket (id_of 0) 8
      (node 1 ∷ node 2 ∷ node 3 ∷ node 4 ∷ node 5 ∷ node 6 ∷ node 7 ∷ node 200 ∷ [])

placed :
    (n : ℕ)
    → n < 256
    → not_after (id_of 0) (id_of n) ≡ true
    → IsPlaced Family.inet (id_of 0) none (node n)
placed n h r = record { is_id = id_of-IsId n h; in_af = refl; ranged = r }

full-IsBucket : IsBucket Family.inet full none
unfolding program same
full-IsBucket = record {
  family = refl;
  first_id = id_of-IsId 0 (omega arith);
  sorted = tt;
  counted = refl;
  capacity = omega arith;
  placed = (
    placed 1 (omega arith) refl,
    (
      placed 2 (omega arith) refl,
      (
        placed 3 (omega arith) refl,
        (
          placed 4 (omega arith) refl,
          (
            placed 5 (omega arith) refl,
            (
              placed 6 (omega arith) refl,
              (placed 7 (omega arith) refl, (placed 200 (omega arith) refl, tt)),
            ),
          ),
        ),
      ),
    ),
  );
  distinct = (
    (refl, (refl, (refl, (refl, (refl, (refl, (refl, tt))))))),
    (
      (refl, (refl, (refl, (refl, (refl, (refl, tt)))))),
      (
        (refl, (refl, (refl, (refl, (refl, tt))))),
        (
          (refl, (refl, (refl, (refl, tt)))),
          ((refl, (refl, (refl, tt))), ((refl, (refl, tt)), ((refl, tt), (tt, tt)))),
        ),
      ),
    ),
  );
}

all-Aligned : Aligned (id_of 0) none
unfolding program
all-Aligned [] v h = absurd (omega (arith, v.len))
all-Aligned (x ∷ id) v h = omega (arith, v.bytes)

full_bucket_splits_example :
    (m : Bytes) × (bucket_middle (id_of 0) none ≡ some m)
    × Aligned (id_of 0) (some m)
    × Aligned m none
    × (split_bit (id_of 0) (some m) ≡ split_bit (id_of 0) none + 1)
    × (split_bit m none ≡ split_bit (id_of 0) none + 1)
full_bucket_splits_example =
    full_bucket_splits Family.inet full none full-IsBucket tt all-Aligned (omega arith)
