-- ===== src/Neural/Training.antt =====
-- neural/neural/ann.cpp: the cost of a network, its gradients and its training. A function that
-- takes networks by reference returns them as it leaves them. The number 2, the division and the
-- conversion of a number of rows to a real number are arguments. A compound assignment reads its
-- right operand first.
pub mod Parameters
pub mod Places
pub mod Cost
pub mod Differences
pub mod Quotients
pub mod Entries
pub mod Loops
pub mod Learn
use tensorlib.Prelude.{
  ℕ, zero, suc, ◌-◌, ◌==◌, ltb, Bool, true, false, Option, none, some, List, length, get_elem?, set,
  if◌then◌else◌, Result, ok, fault, undefined, assert, access, ◌>>=◌, ◌>>◌, for_range,
}
use tensorlib.Real.{RealOps}
use tensorlib.Vector.{
  DynVector, write, vector_at, vector_set, dyn_vector_sum, dyn_vector_difference,
  dyn_vector_hadamard_product, dyn_vector_scalar_product, dyn_vector_dot_product,
}
use tensorlib.Matrix.{DynMatrix, matrix_at, matrix_set, get_row}
use tensorlib.Neural.{VectorMap, LayerActivation, Ann, forward}

module _ {R : Type 0} where
  unfoldable pub input_size : Ann R → Result ℕ
  input_size net = access (get_elem? net.layer_sizes 0)

  unfoldable pub output_size : Ann R → Result ℕ
  output_size net = access (get_elem? net.layer_sizes (length net.layer_sizes - 1))

  abbrev pub num_hidden_layers : Ann R → ℕ
  num_hidden_layers net = length net.layer_sizes - 1

  unfoldable pub get_layer_size : Ann R → ℕ → Result ℕ
  get_layer_size net layer_index = do
    assert (ltb layer_index (length net.layer_sizes))
    access (get_elem? net.layer_sizes layer_index)

  unfoldable pub weight : Ann R → ℕ → Result (DynMatrix R)
  weight net layer_index = do
    assert (ltb layer_index (length net.layer_sizes))
    access (get_elem? net.weights layer_index)

  unfoldable pub bias : Ann R → ℕ → Result (DynVector R)
  bias net layer_index = do
    assert (ltb layer_index (length net.layer_sizes))
    access (get_elem? net.biases layer_index)

  unfoldable pub output : Ann R → ℕ → Result (DynVector R)
  output net layer_index = do
    assert (ltb layer_index (length net.layer_sizes))
    access (get_elem? net.layer_outputs layer_index)

  unfoldable pub activated_output : Ann R → ℕ → Result (DynVector R)
  activated_output net layer_index = do
    assert (ltb layer_index (length net.layer_sizes))
    access (get_elem? net.activated_outputs layer_index)

  unfoldable pub activation : Ann R → ℕ → Result (LayerActivation R)
  activation net layer_index = access (get_elem? net.activation_functions layer_index)

  -- What is written through the references that `weight`, `bias` and `output` return.
  abbrev pub set_weight : Ann R → ℕ → DynMatrix R → Ann R
  set_weight net l m = record net { weights = set net.weights l m }

  abbrev pub set_bias : Ann R → ℕ → DynVector R → Ann R
  set_bias net l v = record net { biases = set net.biases l v }

  abbrev pub set_output : Ann R → ℕ → DynVector R → Ann R
  set_output net l v = record net { layer_outputs = set net.layer_outputs l v }

  -- bind_affine_layer with parameters and an activation function
  unfoldable pub bind_parameters :
      Ann R → ℕ → DynMatrix R → DynVector R → LayerActivation R → Result (Ann R)
  bind_parameters net layer_index w b act = do
    assert (ltb layer_index (length net.layer_sizes))
    _ ← access (get_elem? net.weights layer_index)
    _ ← access (get_elem? net.biases layer_index)
    _ ← access (get_elem? net.activation_functions layer_index)
    _ ← access (get_elem? net.layer_bound layer_index)
    ok (record net {
      layer_bound = set net.layer_bound layer_index true;
      weights = set net.weights layer_index w;
      biases = set net.biases layer_index b;
      activation_functions = set net.activation_functions layer_index act;
    })

  -- bind_affine_layer with the parameters of another network
  unfoldable pub bind_from : Ann R → ℕ → Ann R → Result (Ann R)
  bind_from net layer_index other = do
    w ← access (get_elem? other.weights layer_index)
    b ← access (get_elem? other.biases layer_index)
    act ← access (get_elem? other.activation_functions layer_index)
    bind_parameters net layer_index w b act

  -- The layer is bound if it has parameters: at() throws otherwise.
  abbrev pub has_parameters : Ann R → ℕ → Bool
  has_parameters net layer_index =
      if ltb layer_index (length net.weights) then ltb layer_index (length net.biases) else false

  -- bind_affine_layer with an activation function
  unfoldable pub bind_activation : Ann R → ℕ → LayerActivation R → Result (Ann R)
  bind_activation net layer_index act = do
    assert (ltb layer_index (length net.layer_sizes))
    _ ← access (get_elem? net.activation_functions layer_index)
    _ ← access (get_elem? net.layer_bound layer_index)
    ok (record net {
      layer_bound = set net.layer_bound layer_index (has_parameters net layer_index);
      activation_functions = set net.activation_functions layer_index act;
    })

  -- The loop `for (i = 0; i < entries.size(); ++i) entries[i] = f(entries[i])`.
  pub each_entry : (R → R) → List R → Result (List R)
  each_entry f entries =
      for_range (length entries) 0
        (λ i entries. do x ← access (get_elem? entries i); write entries i (f x)) entries

module _ {R : Type 0} (real : RealOps R) where
  -- The loops over the layers in `zero`.
  unfoldable pub zero_output : ℕ → Ann R → Result (Ann R)
  zero_output l net = do
    v ← access (get_elem? net.layer_outputs l)
    cleared ← for_range v.size 0 (λ i v. vector_set v i real.zero_real) v
    ok (set_output net l cleared)

  unfoldable pub zero_parameters : ℕ → Ann R → Result (Ann R)
  zero_parameters l net = do
    m ← access (get_elem? net.weights l)
    cells ← each_entry (λ x. real.zero_real) m.entries
    v ← access (get_elem? net.biases l)
    entries ← each_entry (λ x. real.zero_real) v.entries
    ok (
        set_bias (set_weight net l (record m { entries = cells })) l
          (record v { entries = entries }))

  unfoldable pub zero_network : Ann R → Result (Ann R)
  zero_network net =
      for_range (length net.layer_sizes) 0 zero_output net
      >>= for_range (num_hidden_layers net) 0 zero_parameters

  -- What one sample adds to the cost.
  unfoldable pub sample_cost : DynMatrix R → DynMatrix R → ℕ → R × Ann R → Result (R × Ann R)
  sample_cost input_data output_data i (cost, model) = do
    in_i ← get_row real input_data i
    o_i ← get_row real output_data i
    (result, model') ← forward real model in_i
    cost' ←
        for_range result.size 0
          (λ j cost. do
            diffv ← dyn_vector_difference real result o_i
            square ← dyn_vector_dot_product real diffv diffv
            ok (real.add cost square))
          cost
    ok (cost', model')

  module _ (divide : R → R → R) (of_natural : ℕ → R) where
    unfoldable pub compute_cost : DynMatrix R → DynMatrix R → Ann R → Result (R × Ann R)
    compute_cost input_data output_data model = do
      (cost, model') ←
          for_range input_data.rows 0 (sample_cost input_data output_data) (real.zero_real, model)
      ok (divide cost (of_natural input_data.rows), model')

    module _ (input_data output_data : DynMatrix R) (cost eps : R) where
      -- The rounds of finite_difference: an entry is moved, the cost is computed, and the entry is
      -- put back.
      unfoldable pub differ_weight : ℕ → ℕ → Ann R × Ann R → Result (Ann R × Ann R)
      differ_weight l i (model, gradient) = do
        m ← weight model l
        saved ← access (get_elem? m.entries i)
        moved ← write m.entries i (real.add saved eps)
        (cost', model') ←
            compute_cost input_data output_data (set_weight model l (record m { entries = moved }))
        g ← weight gradient l
        cells ← write g.entries i (divide (real.subtract cost' cost) eps)
        m' ← weight model' l
        restored ← write m'.entries i saved
        ok (
          set_weight model' l (record m' { entries = restored }),
          set_weight gradient l (record g { entries = cells }),
        )

      unfoldable pub differ_bias : ℕ → ℕ → Ann R × Ann R → Result (Ann R × Ann R)
      differ_bias l i (model, gradient) = do
        v ← bias model l
        saved ← access (get_elem? v.entries i)
        moved ← write v.entries i (real.add saved eps)
        (cost', model') ←
            compute_cost input_data output_data (set_bias model l (record v { entries = moved }))
        g ← bias gradient l
        entries ← write g.entries i (divide (real.subtract cost' cost) eps)
        v' ← bias model' l
        restored ← write v'.entries i saved
        ok (
          set_bias model' l (record v' { entries = restored }),
          set_bias gradient l (record g { entries = entries }),
        )

      unfoldable pub differ_layer : ℕ → Ann R × Ann R → Result (Ann R × Ann R)
      differ_layer l (model, gradient) = do
        m ← weight model l
        v ← bias model l
        _ ← weight gradient l
        _ ← bias gradient l
        done ← for_range (length m.entries) 0 (differ_weight l) (model, gradient)
        for_range (length v.entries) 0 (differ_bias l) done

      unfoldable pub finite_difference : Ann R → Ann R → Result (Ann R × Ann R)
      finite_difference model gradient =
          for_range (num_hidden_layers model) 0 differ_layer (model, gradient)

  module _ (gradient : Ann R) (learning_rate : R) where
    -- An entry of the model moves against the gradient.
    pub learn_weight : ℕ → ℕ → ℕ → Ann R → Result (Ann R)
    learn_weight l i j model = do
      g ← weight gradient l
      slope ← matrix_at g i j
      m ← weight model l
      x ← matrix_at m i j
      m' ← matrix_set m i j (real.subtract x (real.multiply learning_rate slope))
      ok (set_weight model l m')

    pub learn_bias : ℕ → ℕ → Ann R → Result (Ann R)
    learn_bias l i model = do
      g ← bias gradient l
      slope ← vector_at g i
      v ← bias model l
      x ← vector_at v i
      v' ← vector_set v i (real.subtract x (real.multiply learning_rate slope))
      ok (set_bias model l v')

    -- The loops change no size.
    pub learn_layer : ℕ → Ann R → Result (Ann R)
    learn_layer l model = do
      m ← weight model l
      model' ← for_range m.rows 0 (λ i. for_range m.cols 0 (learn_weight l i)) model
      v ← bias model' l
      for_range (length v.entries) 0 (learn_bias l) model'

    pub learn : Ann R → Result (Ann R)
    learn model = for_range (num_hidden_layers model) 0 learn_layer model
