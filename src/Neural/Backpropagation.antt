-- ===== src/Neural/Backpropagation.antt =====
-- neural/neural/ann.cpp: backpropagation and the training of a simple model. A layer that the
-- code counts down to is `layer`, from the last to 1.
pub mod Deltas
pub mod Layers
pub mod Shares
pub mod Steps
pub mod Sweep
pub mod Samples
pub mod Train
pub mod Tests
pub mod Gradient
pub mod Means
use tensorlib.Prelude.{
  ℕ, zero, suc, ◌-◌, ◌==◌, ltb, length, if◌then◌else◌, Result, ok, assert, access, ◌>>=◌, ◌>>◌,
  for_range,
}
use tensorlib.Real.{RealOps}
use tensorlib.Vector.{
  DynVector, vector_at, vector_set, dyn_vector_sum, dyn_vector_difference,
  dyn_vector_hadamard_product, dyn_vector_scalar_product,
}
use tensorlib.Matrix.{DynMatrix, matrix_at, matrix_set, get_row}
use tensorlib.Neural.{Ann, forward}
use tensorlib.Neural.Training.{
  input_size, output_size, num_hidden_layers, weight, bias, output, activated_output, activation,
  set_weight, set_bias, set_output, each_entry, zero_network, compute_cost, learn,
}

module _ {R : Type 0} (real : RealOps R) where
  module _ (model : Ann R) where
    -- What row r and column c add to the slope of a weight.
    pub add_weight : ℕ → ℕ → ℕ → Ann R → Result (Ann R)
    add_weight layer r c gradient = do
      delta ← output gradient layer
      d ← vector_at delta r
      values ← activated_output model (layer - 1)
      a ← vector_at values c
      m ← weight gradient (layer - 1)
      w ← matrix_at m r c
      m' ← matrix_set m r c (real.add w (real.multiply d a))
      ok (set_weight gradient (layer - 1) m')

    -- The sum of column c of the weights times the entries of the layer above.
    pub column_sum : ℕ → ℕ → Ann R → Result R
    column_sum layer c gradient = do
      above ← output model layer
      for_range above.size 0
          (λ r sum. do
            m ← weight model (layer - 1)
            w ← matrix_at m r c
            delta ← output gradient layer
            d ← vector_at delta r
            ok (real.add sum (real.multiply w d)))
          real.zero_real

    pub add_below : ℕ → ℕ → Ann R → Result (Ann R)
    add_below layer c gradient = do
      sum ← column_sum layer c gradient
      below ← output gradient (layer - 1)
      old ← vector_at below c
      below' ← vector_set below c (real.add old sum)
      ok (set_output gradient (layer - 1) below')

    -- if (layer > 1)
    pub propagate : ℕ → Ann R → Result (Ann R)
    propagate layer gradient = do
      below ← output model (layer - 1)
      for_range below.size 0 (add_below layer) gradient

    pub backward_layer : ℕ → Ann R → Result (Ann R)
    backward_layer layer gradient = do
      act ← activation model (layer - 1)
      derivative_function ← access act.derivative_function
      sums ← output model layer
      activation_derivative ← derivative_function sums
      above ← output gradient layer
      delta ← dyn_vector_hadamard_product real above activation_derivative
      let gradient' = set_output gradient layer delta
      b ← bias gradient' (layer - 1)
      b' ← dyn_vector_sum real b delta
      let gradient'' = set_bias gradient' (layer - 1) b'
      values ← activated_output model (layer - 1)
      gradient''' ←
          for_range sums.size 0 (λ r. for_range values.size 0 (add_weight layer r)) gradient''
      if ltb 1 layer then propagate layer gradient''' else ok gradient'''

  module _ (two : R) (input_data output_data : DynMatrix R) where
    -- One row of the data: the model keeps what the forward pass writes.
    pub backward_sample : ℕ → Ann R × Ann R → Result (Ann R × Ann R)
    backward_sample i (model, gradient) = do
      in_i ← get_row real input_data i
      o_i ← get_row real output_data i
      (result, model') ← forward real model in_i
      diff ← dyn_vector_difference real result o_i
      dc ← dyn_vector_scalar_product real diff two
      let last = num_hidden_layers model'
      _ ← output gradient last
      gradient' ←
          for_range last 0 (λ t. backward_layer model' (last - t)) (set_output gradient last dc)
      ok (model', gradient')

    module _ (divide : R → R → R) (of_natural : ℕ → R) where
      -- The mean over the rows.
      pub mean_layer : ℕ → Ann R → Result (Ann R)
      mean_layer layer gradient = do
        m ← weight gradient layer
        cells ← each_entry (λ x. divide x (of_natural input_data.rows)) m.entries
        v ← bias gradient layer
        entries ← each_entry (λ x. divide x (of_natural input_data.rows)) v.entries
        ok (
            set_bias (set_weight gradient layer (record m { entries = cells })) layer
              (record v { entries = entries }))

      pub backpropogate : Ann R → Result (Ann R × Ann R)
      backpropogate model = do
        assert (input_data.rows == output_data.rows)
        inputs ← input_size model
        assert (input_data.cols == inputs)
        outputs ← output_size model
        assert (output_data.cols == outputs)
        zeroed ← zero_network real model
        (model', gradient) ← for_range input_data.rows 0 backward_sample (model, zeroed)
        gradient' ← for_range (num_hidden_layers model') 0 mean_layer gradient
        ok (model', gradient')

      -- One round of training.
      pub training_round : R → ℕ → Ann R → Result (Ann R)
      training_round learning_rate i model = do
        (model', gradient) ← backpropogate model
        learn real gradient learning_rate model'

      pub train_simple_model : ℕ → R → Ann R → Result (Ann R)
      train_simple_model iterations learning_rate model = do
        (initial_cost, model') ← compute_cost real divide of_natural input_data output_data model
        for_range iterations 0 (training_round learning_rate) model'
