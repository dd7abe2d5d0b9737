-- ===== src/Neural/Backpropagation/Tests.antt =====
-- Runs of the training in neural/neural/ann.cpp at concrete inputs, over natural numbers, and the
-- witnesses of its theorems.
use tensorlib.Prelude.{
  ℕ, zero, suc, ◌+◌, ◌*◌, ◌/◌, ◌==◌, if◌then◌else◌, ◌<◌, ◌≡◌, refl, arith, some, [], ◌∷◌, get_elem?,
  ok, fault, assertion, undefined,
}
use tensorlib.Vector.{DynVector}
use tensorlib.Vector.Entries.{IsVector}
use tensorlib.Vector.Tests.{natural_reals, pair_of, pair_at}
use tensorlib.Matrix.{DynMatrix}
use tensorlib.Matrix.Cells.{IsMatrix}
use tensorlib.Neural.{Ann, relu_layer, relu_derivative_entry, activate_entries}
use tensorlib.Neural.Forward.{IsNetwork, activate_entries-IsEntrywise}
use tensorlib.Neural.Tests.{
  row_matrix, one_vector, two_vector, a_network, a_network_parameters, a_network-IsNetwork,
  two_vector-IsVector, single_at,
}
use tensorlib.Neural.Training.{
  compute_cost, finite_difference, differ_layer, differ_weight, differ_bias, bias, bind_parameters,
  bind_from, bind_activation, weight, get_layer_size,
}
use tensorlib.Neural.Training.Quotients.{finite_difference_lem, weight_quotient, bias_quotient}
use tensorlib.Neural.Training.Cost.{compute_cost_lem, total_cost}
use tensorlib.Neural.Backpropagation.{backpropogate, train_simple_model}
use tensorlib.Neural.Backpropagation.Deltas.{IsGradient}
use tensorlib.Neural.Backpropagation.Layers.{HasDerivatives}
use tensorlib.Neural.Backpropagation.Means.{mean_weight, mean_bias, backpropogate_lem}
use tensorlib.Neural.Backpropagation.Train.{trained, train_simple_model_lem}

abbrev data_row : DynMatrix ℕ
data_row = record { rows = 1; cols = 2; entries = 4 ∷ 5 ∷ [] }

abbrev wanted_row : DynMatrix ℕ
wanted_row = record { rows = 1; cols = 1; entries = 29 ∷ [] }

-- After a forward pass.
abbrev ready_network : Ann ℕ
ready_network = record a_network { layer_outputs = two_vector ∷ one_vector ∷ [] }

abbrev quotient : ℕ → ℕ → ℕ
quotient a b = a / b

abbrev same_natural : ℕ → ℕ
same_natural n = n

abbrev other_rows : DynMatrix ℕ
other_rows = record { rows = 2; cols = 1; entries = 29 ∷ 29 ∷ [] }

rows_differ :
    backpropogate natural_reals 2 data_row other_rows quotient same_natural ready_network
    ≡ fault assertion
unfolding backpropogate
rows_differ = refl

outside : get_layer_size a_network 2 ≡ fault assertion
unfolding get_layer_size
outside = refl

-- The assertion admits the last layer, which has no parameters.
last_layer :
    bind_parameters a_network 1 row_matrix one_vector (relu_layer natural_reals 1) ≡ fault undefined
unfolding bind_parameters
last_layer = refl

bound : bind_activation a_network 0 (relu_layer natural_reals 1) ≡ bind_from a_network 0 a_network
unfolding bind_activation bind_from bind_parameters
bound = refl

-- No layer, no difference.
one_layer : Ann ℕ
one_layer = record a_network { layer_sizes = 2 ∷ [] }

nothing_differs :
    finite_difference natural_reals quotient same_natural data_row wanted_row 0 1 one_layer
      one_layer
    ≡ ok (one_layer, one_layer)
unfolding finite_difference one_layer
nothing_differs = refl

no_gradient :
    differ_layer natural_reals quotient same_natural data_row wanted_row 0 1 0
      (a_network, record a_network { weights = [] })
    ≡ fault undefined
unfolding differ_layer weight bias
no_gradient = refl

no_layer_moved :
    differ_weight natural_reals quotient same_natural data_row wanted_row 0 1 2 0
      (a_network, a_network)
    ≡ differ_bias natural_reals quotient same_natural data_row wanted_row 0 1 2 0
        (a_network, a_network)
unfolding differ_weight differ_bias weight bias
no_layer_moved = refl

data_row_at :
    (i j : ℕ) → i < 1 → j < 2 → get_elem? data_row.entries (i * 2 + j) ≡ some (pair_of 4 5 j)
data_row_at zero j hi hj = let place : 0 * 2 + j ≡ j = omega arith in rw place (pair_at 4 5 j hj)
data_row_at (suc i) j hi hj = absurd (omega arith)

data_row-IsMatrix : IsMatrix 1 2 (λ s j. pair_of 4 5 j) data_row
data_row-IsMatrix = record {
  rows = refl;
  cols = refl;
  fits = omega arith;
  stored = refl;
  at = data_row_at;
}

wanted_row_at : (i j : ℕ) → i < 1 → j < 1 → get_elem? wanted_row.entries (i * 1 + j) ≡ some 29
wanted_row_at zero zero hi hj = refl
wanted_row_at zero (suc j) hi hj = absurd (omega arith)
wanted_row_at (suc i) j hi hj = absurd (omega arith)

wanted_row-IsMatrix : IsMatrix 1 1 (λ s j. 29) wanted_row
wanted_row-IsMatrix = record {
  rows = refl;
  cols = refl;
  fits = omega arith;
  stored = refl;
  at = wanted_row_at;
}

a_network-HasDerivatives :
    HasDerivatives a_network_parameters
      (λ k. relu_derivative_entry natural_reals 1)
      a_network.activation_functions
unfolding relu_layer
a_network-HasDerivatives zero lt = (
  relu_layer natural_reals 1,
  refl,
  activate_entries natural_reals (relu_derivative_entry natural_reals 1),
  refl,
  activate_entries-IsEntrywise natural_reals (relu_derivative_entry natural_reals 1),
)
a_network-HasDerivatives (suc k) lt = absurd (omega arith)

ready_outputs :
    (k : ℕ)
    → k < 2
    → (v : DynVector ℕ) × (get_elem? ready_network.layer_outputs k ≡ some v)
      × IsVector (pair_of 2 1 k) (λ i. if k == 0 then pair_of 4 5 i else 7) v
ready_outputs zero lt = (two_vector, refl, two_vector-IsVector)
ready_outputs (suc zero) lt =
    (one_vector, refl, record { size = refl; stored = refl; at = single_at 7 })
ready_outputs (suc (suc k)) lt = absurd (omega arith)

ready_network-IsGradient :
    IsGradient a_network_parameters a_network_parameters.weight a_network_parameters.bias
      (λ k i. if k == 0 then pair_of 4 5 i else 7)
      ready_network
ready_network-IsGradient = record {
  network = record {
    layers = refl;
    sizes = a_network-IsNetwork.sizes;
    positive = a_network-IsNetwork.positive;
    weights = a_network-IsNetwork.weights;
    biases = a_network-IsNetwork.biases;
    activations = a_network-IsNetwork.activations;
  };
  outputs = ready_outputs;
}

compute_cost_lem_example :
    (t : Ann ℕ) × (compute_cost natural_reals quotient same_natural data_row wanted_row a_network
      ≡ ok (total_cost natural_reals a_network_parameters (λ s. pair_of 4 5) (λ s j. 29) 1 / 1, t))
    × IsNetwork a_network_parameters t
compute_cost_lem_example =
    compute_cost_lem natural_reals a_network_parameters (λ s. pair_of 4 5) (λ s j. 29) quotient
      same_natural 1 data_row wanted_row a_network data_row-IsMatrix wanted_row-IsMatrix
      a_network-IsNetwork

backpropogate_lem_example :
    (model' gradient : Ann ℕ) × (backpropogate natural_reals 2 data_row wanted_row quotient
        same_natural ready_network
      ≡ ok (model', gradient))
    × (d' : ℕ → ℕ → ℕ) × IsGradient a_network_parameters a_network_parameters.weight
        a_network_parameters.bias d' model'
    × (model'.activation_functions ≡ ready_network.activation_functions)
    × IsNetwork
        (record a_network_parameters {
          weight =
              mean_weight natural_reals 2 quotient same_natural a_network_parameters
                (λ k. relu_derivative_entry natural_reals 1)
                (λ s. pair_of 4 5)
                (λ s j. 29)
                1;
          bias =
              mean_bias natural_reals 2 quotient same_natural a_network_parameters
                (λ k. relu_derivative_entry natural_reals 1)
                (λ s. pair_of 4 5)
                (λ s j. 29)
                1;
        })
        gradient
backpropogate_lem_example =
    backpropogate_lem natural_reals 2 quotient same_natural a_network_parameters
      (λ k. relu_derivative_entry natural_reals 1) (λ s. pair_of 4 5) (λ s j. 29) 1 ready_network
      data_row wanted_row (λ k i. if k == 0 then pair_of 4 5 i else 7) ready_network-IsGradient
      a_network-HasDerivatives (omega arith) data_row-IsMatrix wanted_row-IsMatrix

train_simple_model_lem_example :
    (t : Ann ℕ) × (train_simple_model natural_reals 2 data_row wanted_row quotient same_natural 3 1
        a_network
      ≡ ok t)
    × IsNetwork
        (trained natural_reals 2 quotient same_natural
          (λ k. relu_derivative_entry natural_reals 1)
          (λ s. pair_of 4 5)
          (λ s j. 29)
          1
          1
          a_network_parameters
          3)
        t
    × (t.activation_functions ≡ a_network.activation_functions)
train_simple_model_lem_example =
    train_simple_model_lem natural_reals 2 quotient same_natural
      (λ k. relu_derivative_entry natural_reals 1) (λ s. pair_of 4 5) (λ s j. 29) 1 1
      a_network_parameters data_row wanted_row 3 a_network a_network-HasDerivatives (omega arith)
      (omega arith) data_row-IsMatrix wanted_row-IsMatrix a_network-IsNetwork

finite_difference_lem_example :
    (model' gradient' : Ann ℕ) × (finite_difference natural_reals quotient same_natural data_row
        wanted_row 1 2 a_network a_network
      ≡ ok (model', gradient'))
    × IsNetwork a_network_parameters model'
    × IsNetwork
        (record a_network_parameters {
          weight =
              weight_quotient natural_reals quotient same_natural 1 2 a_network_parameters
                (λ s. pair_of 4 5)
                (λ s j. 29)
                1
                (λ k i j. pair_of 2 3 j)
                (λ k i. 7);
          bias =
              bias_quotient natural_reals quotient same_natural 1 2 a_network_parameters
                (λ s. pair_of 4 5)
                (λ s j. 29)
                1
                (λ k i j. pair_of 2 3 j)
                (λ k i. 7);
        })
        gradient'
finite_difference_lem_example =
    finite_difference_lem natural_reals quotient same_natural 1 2 a_network_parameters
      (λ s. pair_of 4 5) (λ s j. 29) 1 (λ k i j. pair_of 2 3 j) (λ k i. 7) data_row wanted_row
      data_row-IsMatrix wanted_row-IsMatrix a_network a_network a_network-IsNetwork
      a_network-IsNetwork
