-- ===== src/Neural.antt =====
-- neural/neural/activation.cpp, activation.hpp, ann.cpp and ann.hpp in the same folder: activation
-- functions and the forward pass of a neural network. A matrix or a vector that the code looks up
-- by an index out of range is `undefined`. The exponential function and the division of floating
-- point numbers are arguments.
pub mod Backpropagation
pub mod Forward
pub mod Training
pub mod Tests
use tensorlib.Prelude.{
  ℕ, zero, suc, ◌-◌, ◌==◌, ◌&&◌, ltb, Bool, true, false, Option, none, some, List, [], ◌∷◌, length,
  get_elem?, set, replicate, if◌then◌else◌, Result, ok, fault, assertion, assert, access, ◌>>=◌,
  ◌>>◌, for_range,
}
use tensorlib.Real.{RealOps}
use tensorlib.Vector.{DynVector, vector_at, vector_set, new_vector, dyn_vector_sum}
use tensorlib.Matrix.{DynMatrix, dyn_matrix_vector_product}

abbrev pub VectorMap : Type 0 → Type 0
VectorMap R = DynVector R → Result (DynVector R)

pub record LayerActivation (R : Type 0) : Type 0 where
  pub activation_function : Option (VectorMap R)
  pub derivative_function : Option (VectorMap R)

-- `layer_sizes` is l_i, whose length is L.
pub record Ann (R : Type 0) : Type 0 where
  pub layer_bound : List Bool
  pub layer_sizes : List ℕ
  pub weights : List (DynMatrix R)
  pub biases : List (DynVector R)
  pub activation_functions : List (LayerActivation R)
  pub layer_outputs : List (DynVector R)
  pub activated_outputs : List (DynVector R)

abbrev pub empty_vector : {R : Type 0} → DynVector R
empty_vector = record { size = 0; entries = [] }

abbrev pub no_activation : {R : Type 0} → LayerActivation R
no_activation = record { activation_function = none; derivative_function = none }

-- std::vector::resize
abbrev pub resize {ℓ} : {A : Type ℓ} → ℕ → A → List A → List A
resize zero a xs = []
resize (suc n) a [] = a ∷ resize n a []
resize (suc n) a (x ∷ xs) = x ∷ resize n a xs

-- TENSORLIB_ASSERT(p != nullptr), and the pointer.
abbrev pub assert_function {ℓ} : {A : Type ℓ} → Option A → Result A
assert_function none = fault assertion
assert_function (some a) = ok a

module _ {R : Type 0} where
  -- The constructor from parameters and activation functions.
  pub new_ann :
      List ℕ → List (DynMatrix R) → List (DynVector R) → List (LayerActivation R) → Result (Ann R)
  new_ann topology weights biases activations = do
    assert (ltb 0 (length topology))
    ok (record {
      layer_bound = replicate (length topology) false;
      layer_sizes = topology;
      weights = weights;
      biases = biases;
      activation_functions = resize (length topology - 1) no_activation activations;
      layer_outputs = replicate (length topology) empty_vector;
      activated_outputs = replicate (length topology) empty_vector;
    })

  -- The state before the loop in `forward`.
  abbrev pub with_input : Ann R → DynVector R → List (DynVector R) → Ann R
  with_input net input outputs = record net {
    layer_bound = set net.layer_bound 0 true;
    layer_outputs = set outputs 0 input;
    activated_outputs = set outputs 0 input;
  }

module _ {R : Type 0} (real : RealOps R) where
  -- The loop that all four functions on vectors have, with their function on entries.
  pub activate_entries : (R → R) → VectorMap R
  activate_entries fn v = do
    res ← new_vector real v.size
    for_range v.size 0 (λ i res. do x ← vector_at v i; vector_set res i (fn x)) res

  abbrev pub relu_entry : R → R
  relu_entry x = if real.less real.zero_real x then x else real.zero_real

  abbrev pub relu_derivative_entry : R → R → R
  relu_derivative_entry one x = if real.less real.zero_real x then one else real.zero_real

  pub relu_layer : R → LayerActivation R
  relu_layer one = record {
    activation_function = some (activate_entries relu_entry);
    derivative_function = some (activate_entries (relu_derivative_entry one));
  }

  module _ (one : R) (divide : R → R → R) (exponential : R → R) where
    abbrev pub sigmoid_entry : R → R
    sigmoid_entry x = divide one (real.add one (exponential (real.negate x)))

    abbrev pub sigmoid_derivative_entry : R → R
    sigmoid_derivative_entry x =
        real.multiply (sigmoid_entry x) (real.subtract one (sigmoid_entry x))

    pub sigmoid_layer : LayerActivation R
    sigmoid_layer = record {
      activation_function = some (activate_entries sigmoid_entry);
      derivative_function = some (activate_entries sigmoid_derivative_entry);
    }

  abbrev pub make_outputs : List ℕ → Result (List (DynVector R))
  make_outputs [] = ok []
  make_outputs (size ∷ sizes) = do
    v ← new_vector real size
    rest ← make_outputs sizes
    ok (v ∷ rest)

  -- The body of the loop in `forward`.
  pub forward_layer : ℕ → Ann R → Result (Ann R)
  forward_layer i net = do
    act ← access (get_elem? net.activation_functions i)
    fn ← assert_function act.activation_function
    m ← access (get_elem? net.weights i)
    above ← access (get_elem? net.layer_sizes (suc i))
    below ← access (get_elem? net.layer_sizes i)
    assert (m.rows == above && m.cols == below)
    bias ← access (get_elem? net.biases i)
    assert (bias.size == above)
    a ← access (get_elem? net.activated_outputs i)
    product ← dyn_matrix_vector_product real m a
    sum ← dyn_vector_sum real product bias
    result ← fn sum
    ok (record net {
      layer_outputs = set net.layer_outputs (suc i) sum;
      activated_outputs = set net.activated_outputs (suc i) result;
    })

  -- The result, with the network, which keeps the outputs of each layer.
  pub forward : Ann R → DynVector R → Result (DynVector R × Ann R)
  forward net input = do
    assert (ltb 0 input.size)
    first ← access (get_elem? net.layer_sizes 0)
    assert (input.size == first)
    outputs ← make_outputs net.layer_sizes
    done ← for_range (length net.layer_sizes - 1) 0 forward_layer (with_input net input outputs)
    result ← access (get_elem? done.activated_outputs (length net.layer_sizes - 1))
    ok (result, done)
