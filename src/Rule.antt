-- ===== src/Rule.antt =====
-- src/dns/rule/trie/set.rs: the rules of hijack and reject. A text is its bytes, a set the list of its
-- elements, and a name the list of its labels, without the root.
pub mod Segments
pub mod Lookup
pub mod Spec
pub mod Bloom
pub mod Filter
mod Tests
use mathlib.Core.List.{reverse}
use roxy.Base.{
  ℕ, ◌+◌, ◌-◌, ◌%◌, ◌^◌, Bool, true, false, List, [], ◌∷◌, ◌++◌, ◌==◌, if◌then◌else◌, ◌&&◌, ◌||◌,
}
use roxy.Base.Bytes.{Bytes}

abbrev pub dot : ℕ
dot = 46

unfoldable pub same : Bytes → Bytes → Bool
same [] [] = true
same (a ∷ xs) (b ∷ ys) = (a == b) && same xs ys
same _ _ = false

-- `HashSet::contains`
unfoldable pub has : Bytes → List Bytes → Bool
unfolding same
has s [] = false
has s (e ∷ es) = same s e || has s es

abbrev pub prepend : ℕ → List Bytes → List Bytes
prepend b [] = (b ∷ []) ∷ []
prepend b (s ∷ ss) = (b ∷ s) ∷ ss

-- `str::split('.')`
unfoldable pub split : Bytes → List Bytes
split [] = [] ∷ []
split (b ∷ bs) = let rest = split bs in if b == dot then [] ∷ rest else prepend b rest

-- `join(".")`
unfoldable pub join : List Bytes → Bytes
join [] = []
join (s ∷ []) = s
join (s ∷ t ∷ ss) = s ++ (dot ∷ join (t ∷ ss))

unfoldable pub insert : Bytes → List Bytes → List Bytes
insert host entries = join (reverse (split host)) ∷ entries

-- The loop of `contain` from label `index` on; `last` is `length - 1`.
unfoldable pub walk : List Bytes → ℕ → ℕ → Bytes → List Bytes → Bool
unfolding has
walk entries last index buf [] = false
walk entries last index buf (l ∷ ls) =
    let exact = buf ++ l in
    let wild = exact ++ (dot ∷ []) in
    let rest = walk entries last (index + 1) wild ls in
    if has exact entries
    then if index == last then true else rest
    else if has wild entries
    then true
    else if index == last
    then false
    else rest

-- `num_labels` is `Name::num_labels`, and `length - 1` wraps.
unfoldable pub contain : (List Bytes → ℕ) → List Bytes → List Bytes → Bool
unfolding walk
contain num_labels labels entries =
    walk entries ((num_labels labels + (2 ^ 64 - 1)) % 2 ^ 64) 0 [] (reverse labels)
