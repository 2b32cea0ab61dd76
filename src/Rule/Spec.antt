-- ===== src/Rule/Spec.antt =====
-- `contain` in terms of the rules that were inserted.
use mathlib.Core.List.{reverse, reverse-cons, reverse-append, reverse-reverse}
use mathlib.Core.Path.{subst}
use roxy.Base.{
  ℕ, ◌+◌, ◌-◌, ◌%◌, ◌^◌, ◌<◌, ◌≡◌, ◌≢◌, ◌↔◌, ◌⊎◌, inl, inr, refl, sym, ap, ◌∙◌, Bool, true, false,
  Bool-cases, List, [], ◌∷◌, ◌++◌, append-nil, length, length-append, arith,
}
use roxy.Base.Bytes.{Bytes}
use roxy.Rule.{dot, has, join, contain}
use roxy.Rule.Segments.{NoDots, NoDots-reverse, Ruled, insert_all, has-insert_all, join-snoc}
use roxy.Rule.Lookup.{Here, Found, walk-iff-Found}

-- A name matches if it is a rule, or if some end of it, which is not a rule itself, is a rule behind
-- a leading dot.
pub record Wildcard (rules labels : List Bytes) : Type 0 where
  pub pre : List Bytes
  pub suffix : List Bytes
  pub parts : labels ≡ pre ++ suffix
  pub some_label : suffix ≢ []
  pub not_exact : ¬ Ruled rules suffix
  pub ruled : Ruled rules ([] ∷ suffix)

abbrev pub Matches : List Bytes → List Bytes → Type 0
Matches rules labels = Ruled rules labels ⊎ Wildcard rules labels

NoDots-front : (ss ts : List Bytes) → NoDots (ss ++ ts) → NoDots ss
NoDots-front [] ts h = tt
NoDots-front (s ∷ ss) ts h = (h.0, NoDots-front ss ts h.1)

NoDots-snoc_empty : (ss : List Bytes) → NoDots ss → NoDots (ss ++ ([] ∷ []))
NoDots-snoc_empty [] h = (tt, tt)
NoDots-snoc_empty (s ∷ ss) h = (h.0, NoDots-snoc_empty ss h.1)

pub length-reverse : (ss : List Bytes) → length (reverse ss) ≡ length ss
length-reverse [] = refl
length-reverse (s ∷ ss) =
    ap length (reverse-cons s ss)
    ∙ length-append (reverse ss) (s ∷ [])
    ∙ (let e = length-reverse ss in omega (arith, e))

false_iff : {b : Bool} {A : Type 0} → (b ≡ true) ↔ A → (b ≡ false) ↔ (¬ A)
false_iff {b} {A} e = elim (Bool-cases b) [
  | inl t ↦ (λ f. cc, λ un. absurd (un (e.0 t)))
  | inr f ↦ (λ _ a. let t = e.1 a in cc, λ _. f)
]

module _ (rules : List Bytes) where
  -- The entry with a dot behind the labels of `front` is the rule with a dot in front of them.
  wild_iff :
      (front : List Bytes)
      → front ≢ []
      → NoDots front
      → (has (join front ++ (dot ∷ [])) (insert_all rules) ≡ true)
        ↔ Ruled rules ([] ∷ reverse front)
  wild_iff [] some_label no_dots = absurd (some_label refl)
  wild_iff (f ∷ front) some_label no_dots =
      let ls = (f ∷ front) ++ ([] ∷ []) in
      let e = has-insert_all rules ls (λ k. cc) (NoDots-snoc_empty (f ∷ front) no_dots) in
      let text : join ls ≡ join (f ∷ front) ++ (dot ∷ []) = join-snoc f front [] in
      let back : reverse ls ≡ [] ∷ reverse (f ∷ front) = reverse-append (f ∷ front) ([] ∷ []) in
      (
        λ h. subst (Ruled rules) back (e.0 (ap (λ t. has t (insert_all rules)) text ∙ h)),
        λ r. sym (ap (λ t. has t (insert_all rules)) text) ∙ e.1 (subst (Ruled rules) (sym back) r),
      )

  Found-Matches :
      (labels : List Bytes)
      → NoDots labels
      → Found (insert_all rules) [] (reverse labels)
      → Matches rules labels
  Found-Matches labels no_dots f = by_here f.here
    where
      no_dots_front : NoDots f.front
      no_dots_front =
          NoDots-front f.front f.back (subst NoDots f.parts (NoDots-reverse labels no_dots))

      exact : (has (join f.front) (insert_all rules) ≡ true) ↔ Ruled rules (reverse f.front)
      exact = has-insert_all rules f.front f.some_label no_dots_front

      by_here : Here (insert_all rules) f.front f.back → Matches rules labels
      by_here (inl (ended, e)) =
          let whole : reverse f.front ≡ labels =
            ap reverse (sym (append-nil f.front) ∙ ap (λ l. f.front ++ l) (sym ended) ∙ sym f.parts)
            ∙ reverse-reverse labels in
          inl (subst (Ruled rules) whole (exact.0 e))
      by_here (inr (absent, e)) = inr (record {
        pre = reverse f.back;
        suffix = reverse f.front;
        parts = sym (reverse-reverse labels) ∙ ap reverse f.parts ∙ reverse-append f.front f.back;
        some_label = λ k. f.some_label (sym (reverse-reverse f.front) ∙ ap reverse k);
        not_exact = (false_iff exact).0 absent;
        ruled = (wild_iff f.front f.some_label no_dots_front).0 e;
      })

  Matches-Found :
      (labels : List Bytes)
      → labels ≢ []
      → NoDots labels
      → Matches rules labels
      → Found (insert_all rules) [] (reverse labels)
  Matches-Found labels some_label no_dots (inl r) =
      let some_front : reverse labels ≢ [] =
        λ k. some_label (sym (reverse-reverse labels) ∙ ap reverse k) in
      let exact =
        has-insert_all rules (reverse labels) some_front (NoDots-reverse labels no_dots) in
      record {
        front = reverse labels;
        back = [];
        parts = sym (append-nil (reverse labels));
        some_label = some_front;
        here = inl (refl, exact.1 (subst (Ruled rules) (sym (reverse-reverse labels)) r));
      }
  Matches-Found labels some_label no_dots (inr w) =
      let front = reverse w.suffix in
      let some_front : front ≢ [] =
        λ k. w.some_label (sym (reverse-reverse w.suffix) ∙ ap reverse k) in
      let parts : reverse labels ≡ front ++ reverse w.pre =
        ap reverse w.parts ∙ reverse-append w.pre w.suffix in
      let front_no_dots : NoDots front =
        NoDots-front front (reverse w.pre) (subst NoDots parts (NoDots-reverse labels no_dots)) in
      let exact = has-insert_all rules front some_front front_no_dots in
      let again = reverse-reverse w.suffix in
      record {
        front = front;
        back = reverse w.pre;
        parts = parts;
        some_label = some_front;
        here = inr (
          (false_iff exact).1 (λ r. w.not_exact (subst (Ruled rules) again r)),
          (wild_iff front some_front front_no_dots).1
              (subst (λ s. Ruled rules ([] ∷ s)) (sym again) w.ruled),
        );
      }

  -- For a name of labels without dots, of which `num_labels` gives the number, `contain` says yes
  -- exactly if the name is one of the inserted rules, or if some end of the name, which is not a rule
  -- itself, stands in the rules behind a leading dot.
  pub contain-iff-Matches :
      (num_labels : List Bytes → ℕ) (labels : List Bytes)
      → labels ≢ []
      → NoDots labels
      → length labels < 2 ^ 64
      → num_labels labels ≡ length labels
      → (contain num_labels labels (insert_all rules) ≡ true) ↔ Matches rules labels
  unfolding contain
  contain-iff-Matches num_labels [] some_label no_dots small counted = absurd (some_label refl)
  contain-iff-Matches num_labels (l ∷ ls) some_label no_dots small counted =
      let labels = l ∷ ls in
      let last : (num_labels labels + (2 ^ 64 - 1)) % 2 ^ 64 ≡ length ls =
        omega (arith, counted, small) in
      let loop =
        walk-iff-Found (insert_all rules) (reverse labels) (length ls) (length-reverse labels) in
      rw last (
        λ e. Found-Matches labels no_dots (loop.0 e),
        λ m. loop.1 (Matches-Found labels some_label no_dots m),
      )
