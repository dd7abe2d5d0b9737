-- ===== src/Binomial/Tests.antt =====
-- Runs of tensorlib/math/n_choose_k.cpp at concrete inputs, and the witnesses of its theorems.
use tensorlib.Prelude.{ℕ, ◌%◌, List, [], ◌∷◌, ◌≡◌, refl, ok, arith}
use tensorlib.Prelude.Word.{word_mod}
use tensorlib.Binomial.{n_choose_k, grow, initial_binomials, fill_row, push_row}
use tensorlib.Binomial.Choose.{choose}
use tensorlib.Binomial.Table.{IsTriangle, IsPascal, grow_lem}
use tensorlib.Binomial.Correct.{n_choose_k_correct}

grow_from_first : grow 10 8 ((1 ∷ []) ∷ []) ≡ ok initial_binomials
unfolding grow push_row fill_row
grow_from_first = refl

first_row-IsPascal : IsPascal 0 (1 ∷ [])
first_row-IsPascal = record {
  size = refl;
  entries = λ j h. let same : j ≡ 0 = omega arith in rw same refl;
}

first_table-IsTriangle : IsTriangle ((1 ∷ []) ∷ [])
first_table-IsTriangle = record {
  first = omega arith;
  rows = λ n h. let same : n ≡ 0 = omega arith in rw same (1 ∷ [], refl, first_row-IsPascal);
}

-- The table that the code starts from.
initial_binomials-IsTriangle : IsTriangle initial_binomials
initial_binomials-IsTriangle =
    let (t, run, wide, table) =
      grow_lem 10 8 ((1 ∷ []) ∷ []) first_table-IsTriangle (omega arith) (omega arith) in
    let same : t ≡ initial_binomials = cc (run, grow_from_first) in rw same at table

n_choose_k_correct_example :
    (t' : List (List ℕ)) × (n_choose_k initial_binomials 12 7 ≡ ok (choose 12 7 % word_mod, t'))
    × IsTriangle t'
n_choose_k_correct_example = n_choose_k_correct initial_binomials 12 7 initial_binomials-IsTriangle

choose_12_7 : choose 12 7 ≡ 792
choose_12_7 = refl
