-- ===== src/Rule/Bloom.antt =====
-- src/dns/rule/trie/bloom.rs: the same rules in the Bloom filter of the crate `bloom`, a parameter.
use mathlib.Core.List.{reverse}
use roxy.Base.{ℕ, ◌+◌, ◌-◌, ◌%◌, ◌^◌, Bool, true, false, List, [], ◌∷◌, ◌++◌, ◌==◌, if◌then◌else◌}
use roxy.Base.Bytes.{Bytes}
use roxy.Rule.{dot, split, join}

pub record BloomFilter (B : Type 0) : Type 0 where
  pub insert : B → Bytes → B
  pub contains : B → Bytes → Bool

module _ {B : Type 0} (f : BloomFilter B) where
  unfoldable pub insert : Bytes → B → B
  insert host bloom = f.insert bloom (join (reverse (split host)))

  -- The loop of `contain` from label `index` on; `last` is `length - 1`.
  unfoldable pub walk : B → ℕ → ℕ → Bytes → List Bytes → Bool
  walk bloom last index buf [] = false
  walk bloom last index buf (l ∷ ls) =
      let exact = buf ++ l in
      let wild = exact ++ (dot ∷ []) in
      let rest = walk bloom last (index + 1) wild ls in
      if f.contains bloom exact
      then if index == last then true else rest
      else if f.contains bloom wild
      then true
      else if index == last
      then false
      else rest

  unfoldable pub contain : (List Bytes → ℕ) → List Bytes → B → Bool
  unfolding walk
  contain num_labels labels bloom =
      walk bloom ((num_labels labels + (2 ^ 64 - 1)) % 2 ^ 64) 0 [] (reverse labels)
