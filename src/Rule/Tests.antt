-- ===== src/Rule/Tests.antt =====
-- Rules and names, among them those of the tests of set.rs.
use roxy.Base.{Bool, ◌||◌, ◌≡◌, ◌↔◌, refl, arith, true, false, List, [], ◌∷◌, length}
use roxy.Base.Bytes.{Bytes, codes}
use roxy.Rule.{contain, split, join}
use roxy.Rule.{same, has}
use roxy.Rule.Segments.{insert_all, same_refl}
use roxy.Rule.Bloom
use roxy.Rule.Bloom.{BloomFilter}
use roxy.Rule.Filter.{NoFalseNegatives, insert_rules, contain-insert}
use roxy.Rule.Spec.{Matches, contain-iff-Matches}

abbrev rules : List Bytes
rules = codes ".foo.com" ∷ codes "bar.com" ∷ []

abbrev foo_com : List Bytes
foo_com = codes "foo" ∷ codes "com" ∷ []

abbrev abc_foo_com : List Bytes
abc_foo_com = codes "abc" ∷ foo_com

insert_and_lookup :
    (contain length (codes "foo" ∷ codes "org" ∷ []) (insert_all rules) ≡ false)
    × (contain length foo_com (insert_all rules) ≡ true)
    × (contain length abc_foo_com (insert_all rules) ≡ true)
    × (contain length (codes "bar" ∷ codes "com" ∷ []) (insert_all rules) ≡ true)
    × (contain length (codes "bb" ∷ codes "bar" ∷ codes "com" ∷ []) (insert_all rules) ≡ false)
unfolding contain insert_all split join
insert_and_lookup = (refl, refl, refl, refl, refl)

-- An exact rule for the same name takes the wildcard's subdomains away.
exact_hides_wildcard : contain length abc_foo_com (insert_all (codes "foo.com" ∷ rules)) ≡ false
unfolding contain insert_all split join
exact_hides_wildcard = refl

contain-iff-Matches_example :
    (contain length abc_foo_com (insert_all rules) ≡ true) ↔ Matches rules abc_foo_com
contain-iff-Matches_example =
    contain-iff-Matches rules length abc_foo_com (λ e. cc) (omega arith) (omega arith) refl

-- A filter without false positives.
abbrev filter : BloomFilter (List Bytes)
filter = record { insert = λ b s. s ∷ b; contains = λ b s. has s b }

or_true : (b : Bool) → (b || true) ≡ true
or_true true = refl
or_true false = refl

filter-NoFalseNegatives : NoFalseNegatives filter
unfolding has
filter-NoFalseNegatives = record {
  inserted = λ b s. rw (same_refl s) refl;
  kept = λ b s t h. rw h (or_true (same s t));
}

cut_bar_com : split (codes "bar.com") ≡ codes "bar" ∷ codes "com" ∷ []
unfolding split
cut_bar_com = refl

contain-insert_example :
    Bloom.contain filter length
      (codes "bar" ∷ codes "com" ∷ [])
      (insert_rules filter (codes ".foo.com" ∷ []) (Bloom.insert filter (codes "bar.com") []))
    ≡ true
contain-insert_example =
    contain-insert filter filter-NoFalseNegatives length [] (codes "bar.com")
      (codes ".foo.com" ∷ []) (codes "bar" ∷ codes "com" ∷ []) cut_bar_com (λ e. cc) (omega arith)
      refl
