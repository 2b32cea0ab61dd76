-- ===== src/Rule/Filter.antt =====
-- What a filter without false negatives makes of an exact rule.
use mathlib.Core.List.{reverse, reverse-reverse}
use roxy.Base.{
  ℕ, ◌+◌, ◌-◌, ◌%◌, ◌^◌, ◌<◌, ◌≡◌, ◌≢◌, refl, sym, ap, ◌∙◌, true, false, Bool-cases, inl, inr, List,
  [], ◌∷◌, ◌++◌, append_assoc, length, ◌==◌, arith,
}
use roxy.Base.Bytes.{Bytes}
use roxy.Rule.{dot, split, join}
use roxy.Rule.Bloom.{BloomFilter, insert, walk, contain}
use roxy.Rule.Spec.{length-reverse}

-- What a Bloom filter gives: an inserted element is contained, and stays so.
pub record NoFalseNegatives {B : Type 0} (f : BloomFilter B) : Type 0 where
  pub inserted : (b : B) (s : Bytes) → f.contains (f.insert b s) s ≡ true
  pub kept : (b : B) (s t : Bytes) → f.contains b s ≡ true → f.contains (f.insert b t) s ≡ true

module _ {B : Type 0} (f : BloomFilter B) where
  -- Where the whole text is contained, the loop says yes, whatever it meets on its way.
  walk_whole :
      (bloom : B) (last index : ℕ) (buf l : Bytes) (ls : List Bytes)
      → index + length ls ≡ last
      → f.contains bloom (buf ++ join (l ∷ ls)) ≡ true
      → walk f bloom last index buf (l ∷ ls) ≡ true
  unfolding walk join
  walk_whole bloom last index buf l [] h there =
      let at_end : (index == last) ≡ true = ground (arith, h) in rw (there, walk, at_end) refl
  walk_whole bloom last index buf l (k ∷ ls) h there =
      let on_way : (index == last) ≡ false = ground (arith, h) in
      let wild = (buf ++ l) ++ (dot ∷ []) in
      let whole : wild ++ join (k ∷ ls) ≡ buf ++ (l ++ (dot ∷ join (k ∷ ls))) =
        append_assoc (buf ++ l) (dot ∷ []) (join (k ∷ ls))
        ∙ append_assoc buf l (dot ∷ join (k ∷ ls)) in
      let rest =
        walk_whole bloom last (index + 1) wild k ls (omega (arith, h))
          (ap (f.contains bloom) whole ∙ there) in
      elim (Bool-cases (f.contains bloom (buf ++ l))) [
        | inl exact ↦ rw (exact, walk, on_way, rest) refl
        | inr inexact ↦ elim (Bool-cases (f.contains bloom wild)) [
          | inl yes_wild ↦ rw (inexact, walk, yes_wild) refl
          | inr no_wild ↦ rw (inexact, walk, no_wild, on_way, rest) refl
        ]
      ]

  unfoldable pub insert_rules : List Bytes → B → B
  unfolding insert
  insert_rules [] bloom = bloom
  insert_rules (r ∷ rules) bloom = insert_rules rules (insert f r bloom)

module _ {B : Type 0} (f : BloomFilter B) (sound : NoFalseNegatives f) where
  kept_all :
      (rules : List Bytes) (bloom : B) (s : Bytes)
      → f.contains bloom s ≡ true
      → f.contains (insert_rules f rules bloom) s ≡ true
  unfolding insert_rules insert
  kept_all [] bloom s h = h
  kept_all (r ∷ rules) bloom s h =
      kept_all rules (insert f r bloom) s (sound.kept bloom s (join (reverse (split r))) h)

  -- A name that is a rule is always found, after any rules were inserted before and behind it: a
  -- false positive of the filter on a part of the name does not hide it.
  pub contain-insert :
      (num_labels : List Bytes → ℕ) (bloom : B) (rule : Bytes) (rules labels : List Bytes)
      → split rule ≡ labels
      → labels ≢ []
      → length labels < 2 ^ 64
      → num_labels labels ≡ length labels
      → contain f num_labels labels (insert_rules f rules (insert f rule bloom)) ≡ true
  unfolding contain insert
  contain-insert num_labels bloom rule rules labels is some_label small counted =
      by_parts (reverse labels) refl
    where
      last : ℕ
      last = (num_labels labels + (2 ^ 64 - 1)) % 2 ^ 64

      by_parts :
          (ls : List Bytes)
          → reverse labels ≡ ls
          → walk f (insert_rules f rules (insert f rule bloom)) last 0 [] ls ≡ true
      by_parts [] e = absurd (some_label (sym (reverse-reverse labels) ∙ ap reverse e))
      by_parts (l ∷ ls) e =
          let len = length-reverse labels in
          walk_whole f (insert_rules f rules (insert f rule bloom)) last 0 [] l ls
            (omega (arith, counted, small, len, ap length e))
            (kept_all rules (insert f rule bloom) (join (l ∷ ls)) (
              ap (λ s. f.contains (insert f rule bloom) (join s)) (sym e ∙ ap reverse (sym is))
              ∙ sound.inserted bloom (join (reverse (split rule)))))
