-- ===== src/Neural/Tests.antt =====
-- Runs of neural/neural/ann.cpp at concrete inputs, over natural numbers, and the witness of its
-- theorem.
use tensorlib.Prelude.{
  ℕ, zero, suc, ◌+◌, ◌*◌, ◌<◌, ◌≤◌, ◌≡◌, refl, arith, false, some, [], ◌∷◌, get_elem?, ok, fault,
  assertion,
}
use tensorlib.Vector.{DynVector}
use tensorlib.Vector.Entries.{IsVector}
use tensorlib.Vector.Tests.{natural_reals, pair_of, pair_at}
use tensorlib.Matrix.{DynMatrix}
use tensorlib.Matrix.Cells.{IsMatrix}
use tensorlib.Neural.{
  Ann, LayerActivation, VectorMap, relu_layer, relu_entry, sigmoid_layer, sigmoid_entry,
  activate_entries, new_ann, empty_vector, no_activation, forward, forward_layer,
}
use tensorlib.Neural.Forward.{
  Parameters, IsNetwork, IsEntrywise, activate_entries-IsEntrywise, layer_value, forward_lem,
}

abbrev pub row_matrix : DynMatrix ℕ
row_matrix = record { rows = 1; cols = 2; entries = 2 ∷ 3 ∷ [] }

abbrev pub one_vector : DynVector ℕ
one_vector = record { size = 1; entries = 7 ∷ [] }

abbrev pub two_vector : DynVector ℕ
two_vector = record { size = 2; entries = 4 ∷ 5 ∷ [] }

pub row_at :
    (i j : ℕ) → i < 1 → j < 2 → get_elem? row_matrix.entries (i * 2 + j) ≡ some (pair_of 2 3 j)
row_at zero j hi hj = let place : 0 * 2 + j ≡ j = omega arith in rw place (pair_at 2 3 j hj)
row_at (suc i) j hi hj = absurd (omega arith)

pub single_at : (a i : ℕ) → i < 1 → get_elem? (a ∷ []) i ≡ some a
single_at a zero lt = refl
single_at a (suc i) lt = absurd (omega arith)

abbrev pub a_network : Ann ℕ
a_network = record {
  layer_bound = false ∷ false ∷ [];
  layer_sizes = 2 ∷ 1 ∷ [];
  weights = row_matrix ∷ [];
  biases = one_vector ∷ [];
  activation_functions = relu_layer natural_reals 1 ∷ [];
  layer_outputs = empty_vector ∷ empty_vector ∷ [];
  activated_outputs = empty_vector ∷ empty_vector ∷ [];
}

abbrev pub a_network_parameters : Parameters ℕ
a_network_parameters = record {
  last = 1;
  size = pair_of 2 1;
  weight = λ k i j. pair_of 2 3 j;
  bias = λ k i. 7;
  fn = λ k. relu_entry natural_reals;
}

constructed :
    new_ann (2 ∷ 1 ∷ []) (row_matrix ∷ []) (one_vector ∷ []) (relu_layer natural_reals 1 ∷ [])
    ≡ ok a_network
unfolding new_ann
constructed = refl

no_layers : new_ann {R = ℕ} [] [] [] [] ≡ fault assertion
unfolding new_ann
no_layers = refl

sigmoid_function :
    (sigmoid_layer natural_reals 1 (λ a b. a) (λ a. a)).activation_function
    ≡ some (activate_entries natural_reals (sigmoid_entry natural_reals 1 (λ a b. a) (λ a. a)))
unfolding sigmoid_layer
sigmoid_function = refl

other_size : forward natural_reals a_network one_vector ≡ fault assertion
unfolding forward
other_size = refl

no_function :
    forward_layer natural_reals 0 (record a_network { activation_functions = no_activation ∷ [] })
    ≡ fault assertion
unfolding forward_layer
no_function = refl

pub two_vector-IsVector : IsVector 2 (pair_of 4 5) two_vector
two_vector-IsVector = record { size = refl; stored = refl; at = pair_at 4 5 }

weights_of_network :
    (k : ℕ)
    → k < 1
    → (m : DynMatrix ℕ) × (get_elem? a_network.weights k ≡ some m)
      × IsMatrix (pair_of 2 1 (suc k)) (pair_of 2 1 k) (λ i j. pair_of 2 3 j) m
weights_of_network zero lt = (
  row_matrix,
  refl,
  record { rows = refl; cols = refl; fits = omega arith; stored = refl; at = row_at },
)
weights_of_network (suc k) lt = absurd (omega arith)

biases_of_network :
    (k : ℕ)
    → k < 1
    → (v : DynVector ℕ) × (get_elem? a_network.biases k ≡ some v)
      × IsVector (pair_of 2 1 (suc k)) (λ i. 7) v
biases_of_network zero lt =
    (one_vector, refl, record { size = refl; stored = refl; at = single_at 7 })
biases_of_network (suc k) lt = absurd (omega arith)

size_positive : (k : ℕ) → k ≤ 1 → 0 < pair_of 2 1 k
size_positive zero lt = omega arith
size_positive (suc zero) lt = omega arith
size_positive (suc (suc k)) lt = absurd (omega arith)

activations_of_network :
    (k : ℕ)
    → k < 1
    → (act : LayerActivation ℕ) × (get_elem? a_network.activation_functions k ≡ some act)
      × (map : VectorMap ℕ) × (act.activation_function ≡ some map)
      × IsEntrywise (relu_entry natural_reals) map
unfolding relu_layer
activations_of_network zero lt = (
  relu_layer natural_reals 1,
  refl,
  activate_entries natural_reals (relu_entry natural_reals),
  refl,
  activate_entries-IsEntrywise natural_reals (relu_entry natural_reals),
)
activations_of_network (suc k) lt = absurd (omega arith)

pub a_network-IsNetwork : IsNetwork a_network_parameters a_network
a_network-IsNetwork = record {
  layers = refl;
  sizes = λ k le. pair_at 2 1 k (omega arith);
  positive = size_positive;
  weights = weights_of_network;
  biases = biases_of_network;
  activations = activations_of_network;
}

forward_lem_example :
    (v : DynVector ℕ) × (t : Ann ℕ) × (forward natural_reals a_network two_vector ≡ ok (v, t))
    × IsVector 1 (layer_value natural_reals a_network_parameters (pair_of 4 5) 1) v
    × IsNetwork a_network_parameters t
forward_lem_example =
    forward_lem natural_reals a_network_parameters a_network (pair_of 4 5) two_vector
      a_network-IsNetwork two_vector-IsVector
