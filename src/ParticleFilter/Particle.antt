-- ===== src/ParticleFilter/Particle.antt =====
-- `Model`, `LandmarkObs` and `Particle` of cjunk/practice/geoParticleFilter.cc. The file does not say
-- what a `Map` is: its `at` is a parameter, which gives `x_f` and `y_f`, or throws.
use cpp_examples.Prelude.{Option, some, List, [], ◌∷◌, ◌>>=◌}
use cpp_examples.Prelude.Int.{ℤ}
use cpp_examples.Real.{Real, ◌⊕◌, ◌⊖◌, ◌⊗◌, ◌⊘◌, whole}

-- The arrays `std_pos` and `std_landmark` have two elements.
pub record Model (Double : Type 0) : Type 0 where
  pub dt : Double
  pub std_pos : Double × Double
  pub std_landmark : Double × Double

pub record LandmarkObs (Double : Type 0) : Type 0 where
  pub landmark_id : ℤ
  pub dx : Double
  pub dy : Double

pub record Particle (Double Map : Type 0) : Type 0 where
  pub x : Double
  pub y : Double
  pub theta : Double
  pub weight : Double
  pub map_landmarks : Map

module _ {Double Map : Type 0} ⦃real : Real Double⦄ (at : Map → ℤ → Option (Double × Double)) where
  -- The constructor.
  unfoldable pub make_particle : Map → Particle Double Map
  make_particle map_landmarks = record {
    x = whole 0;
    y = whole 0;
    theta = whole 0;
    weight = whole 1;
    map_landmarks = map_landmarks;
  }

  -- The first three assignments of `update`, each with the values so far.
  unfoldable pub move : Model Double → Particle Double Map → Particle Double Map
  move model self =
      let x = self.x ⊕ model.dt ⊗ real.cos (self.theta) in
      let y = self.y ⊕ model.dt ⊗ real.sin (self.theta) in
      let turn = real.literal 2 1 ⊗ real.sin (whole 10 ⊗ self.theta) ⊕ real.literal 1 1 in
      record self { x = x; y = y; theta = self.theta ⊕ model.dt ⊗ turn; weight = whole 1 }

  -- The three factors of a landmark.
  unfoldable pub landmark_factor : Model Double → LandmarkObs Double → Double
  landmark_factor model obs =
      let (s, t) = model.std_landmark in
      let square = obs.dx ⊗ obs.dx ⊕ obs.dy ⊗ obs.dy in
      whole 1
      ⊘ (real.sqrt (whole 2 ⊗ real.pi ⊗ s ⊗ t) ⊗ real.exp (real.negate square ⊘ (whole 2 ⊗ s ⊗ t)))

  unfoldable pub distance_factor : Model Double → Double → Double
  distance_factor model distance =
      let (s, t) = model.std_pos in
      let square = distance ⊗ distance in
      whole 1
      ⊘ (real.sqrt (whole 2 ⊗ real.pi ⊗ s ⊗ t) ⊗ real.exp (real.negate square ⊘ (whole 2 ⊗ s ⊗ t)))

  unfoldable pub bearing_factor : Model Double → Double → Double
  bearing_factor model bearing =
      let (s, t) = model.std_pos in
      let angle = real.atan (t ⊘ s) in
      let square = bearing ⊗ bearing in
      whole 1
      ⊘ (real.sqrt (whole 2 ⊗ real.pi ⊗ angle) ⊗ real.exp (real.negate square ⊘ (whole 2 ⊗ angle)))

  -- The body of the loop of `update`: the weight after one observation.
  unfoldable pub observe :
      Model Double → Map → Particle Double Map → LandmarkObs Double → Option Double
  observe model map_landmarks self obs = do
    (landmark_x, landmark_y) ← at map_landmarks (obs.landmark_id)
    let across = self.x ⊖ landmark_x
    let along = self.y ⊖ landmark_y
    let distance = real.sqrt (across ⊗ across ⊕ along ⊗ along)
    let bearing = real.atan2 (landmark_y ⊖ self.y) (landmark_x ⊖ self.x) ⊖ self.theta
    some (
        self.weight
        ⊗ landmark_factor model obs
        ⊗ distance_factor model distance
        ⊗ bearing_factor model bearing)

  unfoldable pub observe_all :
      Model Double
      → Map
      → Particle Double Map
      → List (LandmarkObs Double)
      → Option (Particle Double Map)
  observe_all model map_landmarks self [] = some self
  observe_all model map_landmarks self (obs ∷ observations) = do
    weight ← observe model map_landmarks self obs
    observe_all model map_landmarks (record self { weight = weight }) observations

  -- `update`: an exception of `at` leaves it.
  unfoldable pub update :
      Particle Double Map
      → Model Double
      → List (LandmarkObs Double)
      → Map
      → Option (Particle Double Map)
  update self model observations map_landmarks =
      observe_all model map_landmarks (move model self) observations
