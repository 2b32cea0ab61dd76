-- ===== src/Replay/Tests.antt =====
-- A replayed nonce, with lists in place of the filters.
use roxy.Base.{◌≡◌, refl, Bool, true, false, ◌||◌, List, [], ◌∷◌, arith}
use roxy.Base.Bytes.{Bytes}
use roxy.Rule.{same, has}
use roxy.Rule.Segments.{same_refl}
use roxy.Replay.{Bloom, PingPongBloom, new, check_and_set}
use roxy.Replay.Recent.{NoFalseNegatives, after, check_and_set-again}

abbrev lists : Bloom (List Bytes)
lists = record {
  new_for_fp_rate = λ n. [];
  check = λ b x. has x b;
  set = λ b x. x ∷ b;
  clear = λ b. [];
}

or_true : (b : Bool) → (b || true) ≡ true
or_true true = refl
or_true false = refl

lists-NoFalseNegatives : NoFalseNegatives lists
unfolding has
lists-NoFalseNegatives = record {
  check_set = λ b x. rw (same_refl x) refl;
  kept = λ b x y h. rw h (or_true (same x y));
}

abbrev small : PingPongBloom (List Bytes)
small = record (new lists) { item_count = 2 }

is_new : (check_and_set lists (7 ∷ []) small).0 ≡ false
unfolding check_and_set new has
is_new = refl

check_and_set-again_example :
    (check_and_set lists
      (7 ∷ [])
      (after lists ((8 ∷ []) ∷ (9 ∷ []) ∷ []) (check_and_set lists (7 ∷ []) small).1)).0
    ≡ true
check_and_set-again_example =
    check_and_set-again lists lists-NoFalseNegatives (7 ∷ []) small ((8 ∷ []) ∷ (9 ∷ []) ∷ [])
      is_new (omega arith)
