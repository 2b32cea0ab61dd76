-- ===== src/Rule/Segments.antt =====
-- Texts cut at their dots, and put together again.
use mathlib.Core.Path.{ap₂, subst}
use mathlib.Core.List.{reverse, reverse-cons, reverse-reverse}
use roxy.Base.{
  ℕ, ◌≡◌, ◌≢◌, ◌↔◌, ◌⊎◌, inl, inr, refl, sym, ap, ◌∙◌, Bool, true, false, Bool-cases, List, [], ◌∷◌,
  ◌++◌, append_assoc, ◌==◌, ◌||◌, arith,
}
use roxy.Base.Bytes.{Bytes}
use roxy.Rule.{dot, same, has, prepend, split, join, insert}

abbrev pub NoDot : Bytes → Type 0
NoDot [] = Unit
NoDot (b ∷ bs) = (b ≢ dot) × NoDot bs

abbrev pub NoDots : List Bytes → Type 0
NoDots [] = Unit
NoDots (s ∷ ss) = NoDot s × NoDots ss

pub same_sound : (a b : Bytes) → same a b ≡ true → a ≡ b
unfolding same
same_sound [] [] h = refl
same_sound (a ∷ xs) (b ∷ ys) h = elim (Bool-cases (a == b)) [
  | inl e ↦ ap₂ ◌∷◌ (ground arith) (same_sound xs ys (rw e at h))
  | inr e ↦ (let bad : false ≡ true = rw e at h in cc)
]
same_sound _ _ h = cc

pub same_refl : (a : Bytes) → same a a ≡ true
unfolding same
same_refl [] = refl
same_refl (a ∷ xs) = let e : (a == a) ≡ true = ground arith in rw (e, same) (same_refl xs)

-- Cutting undoes putting together.
split-nodot : (s : Bytes) → NoDot s → split s ≡ s ∷ []
unfolding split
split-nodot [] h = refl
split-nodot (b ∷ s) h =
    let e : (b == dot) ≡ false = ground (arith, h.0) in rw (e, split, split-nodot s h.1) refl

split-append_dot : (s rest : Bytes) → NoDot s → split (s ++ (dot ∷ rest)) ≡ s ∷ split rest
unfolding split
split-append_dot [] rest h = refl
split-append_dot (b ∷ s) rest h =
    let e : (b == dot) ≡ false = ground (arith, h.0) in
    rw (e, split, split-append_dot s rest h.1) refl

pub split-join : (s : Bytes) (ss : List Bytes) → NoDots (s ∷ ss) → split (join (s ∷ ss)) ≡ s ∷ ss
unfolding join
split-join s [] h = split-nodot s h.0
split-join s (t ∷ ss) h =
    split-append_dot s (join (t ∷ ss)) h.0 ∙ ap (λ l. s ∷ l) (split-join t ss h.1)

NoDots-prepend : (b : ℕ) (ss : List Bytes) → b ≢ dot → NoDots ss → NoDots (prepend b ss)
NoDots-prepend b [] h k = ((h, tt), tt)
NoDots-prepend b (s ∷ ss) h k = ((h, k.0), k.1)

prepend-cons : (b : ℕ) (ss : List Bytes) → (t : Bytes) × (us : List Bytes) × (prepend b ss ≡ t ∷ us)
prepend-cons b [] = (b ∷ [], [], refl)
prepend-cons b (s ∷ ss) = (b ∷ s, ss, refl)

NoDots-split : (s : Bytes) → NoDots (split s)
unfolding split
NoDots-split [] = (tt, tt)
NoDots-split (b ∷ bs) = elim (Bool-cases (b == dot)) [
  | inl e ↦ rw (e, split) (tt, NoDots-split bs)
  | inr e ↦ rw (e, split) (NoDots-prepend b (split bs) (ground arith) (NoDots-split bs))
]

split-cons : (s : Bytes) → (t : Bytes) × (ss : List Bytes) × (split s ≡ t ∷ ss)
unfolding split
split-cons [] = ([], [], refl)
split-cons (b ∷ bs) = elim (Bool-cases (b == dot)) [
  | inl e ↦ rw (e, split) ([], split bs, refl)
  | inr e ↦ rw (e, split) (prepend-cons b (split bs))
]

pub join-snoc :
    (s : Bytes) (ss : List Bytes) (t : Bytes)
    → join ((s ∷ ss) ++ (t ∷ [])) ≡ join (s ∷ ss) ++ (dot ∷ t)
unfolding join
join-snoc s [] t = refl
join-snoc s (u ∷ ss) t =
    ap (λ l. s ++ (dot ∷ l)) (join-snoc u ss t)
    ∙ sym (append_assoc s (dot ∷ join (u ∷ ss)) (dot ∷ t))

NoDots-append : (ss ts : List Bytes) → NoDots ss → NoDots ts → NoDots (ss ++ ts)
NoDots-append [] ts h k = k
NoDots-append (s ∷ ss) ts h k = (h.0, NoDots-append ss ts h.1 k)

pub NoDots-reverse : (ss : List Bytes) → NoDots ss → NoDots (reverse ss)
NoDots-reverse [] h = tt
NoDots-reverse (s ∷ ss) h =
    subst NoDots (sym (reverse-cons s ss))
      (NoDots-append (reverse ss) (s ∷ []) (NoDots-reverse ss h.1) (h.0, tt))

split-join_some : (ss : List Bytes) → ss ≢ [] → NoDots ss → split (join ss) ≡ ss
split-join_some [] h k = absurd (h refl)
split-join_some (s ∷ ss) h k = split-join s ss k

reverse_some : (ss : List Bytes) → ss ≢ [] → reverse ss ≢ []
reverse_some ss h e = h (sym (reverse-reverse ss) ∙ ap reverse e)

split_some : (s : Bytes) → split s ≢ []
split_some s e = let (t, ss, k) = split-cons s in cc

-- The entry of a rule is the text of the segments `ls` exactly if they are those of the rule, reversed.
entry_iff :
    (r : Bytes) (ls : List Bytes)
    → ls ≢ []
    → NoDots ls
    → (join ls ≡ join (reverse (split r))) ↔ (split r ≡ reverse ls)
entry_iff r ls some_label no_dots = (
  λ e.
      let back = reverse (split r) in
      let same_parts : ls ≡ back =
        sym (split-join_some ls some_label no_dots)
        ∙ ap split e
        ∙ split-join_some back (reverse_some (split r) (split_some r))
            (NoDots-reverse (split r) (NoDots-split r)) in
      sym (reverse-reverse (split r)) ∙ ap reverse (sym same_parts),
  λ e. ap join (sym (reverse-reverse ls)) ∙ ap (λ l. join (reverse l)) (sym e),
)

-- Some rule has exactly these segments.
abbrev pub Ruled : List Bytes → List Bytes → Type 0
Ruled [] segments = ⊥
Ruled (r ∷ rules) segments = (split r ≡ segments) ⊎ Ruled rules segments

-- The entries after all rules were inserted.
unfoldable pub insert_all : List Bytes → List Bytes
unfolding insert
insert_all [] = []
insert_all (r ∷ rules) = insert r (insert_all rules)

or_iff : (a b : Bool) → ((a || b) ≡ true) ↔ ((a ≡ true) ⊎ (b ≡ true))
or_iff true b = (λ _. inl refl, λ _. refl)
or_iff false b = (λ h. inr h, λ h. elim h [ inl e ↦ cc | inr e ↦ e ])

pub has-insert_all :
    (rules ls : List Bytes)
    → ls ≢ []
    → NoDots ls
    → (has (join ls) (insert_all rules) ≡ true) ↔ Ruled rules (reverse ls)
unfolding insert_all has
has-insert_all [] ls some_label no_dots = (λ h. cc, λ h. absurd h)
has-insert_all (r ∷ rules) ls some_label no_dots =
    let here = entry_iff r ls some_label no_dots in
    let there = has-insert_all rules ls some_label no_dots in
    let parts =
      or_iff (same (join ls) (join (reverse (split r)))) (has (join ls) (insert_all rules)) in
    (
      λ h. elim (parts.0 h) [ inl e ↦ inl (here.0 (same_sound _ _ e)) | inr e ↦ inr (there.0 e) ],
      λ h. elim h [
        | inl e ↦
            parts.1 (inl (subst (λ x. same (join ls) x ≡ true) (here.1 e) (same_refl (join ls))))
        | inr e ↦ parts.1 (inr (there.1 e))
      ],
    )
