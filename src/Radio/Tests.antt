-- ===== src/Radio/Tests.antt =====
-- A radio on a device that remembers its frequency.
use cpp_examples.Prelude.{ℕ, ◌≡◌, refl, none, some, [], ◌∷◌, Option}
use cpp_examples.Prelude.Int.{ℤ, pos, negsuc}
use mathlib.Core.Option
use cpp_examples.Radio.{
  main, returned, read_ready, make_radio, Request, set_frequency, set_modulator, query_capabilities,
  Device, config,
}
use cpp_examples.Radio.Silence.{main-silent}

abbrev tuned : Request → ℕ → ℕ
tuned (set_frequency f) w = f
tuned query_capabilities w = w
tuned (set_modulator low high) w = w

abbrev tuner : Device
tuner = record { World = ℕ; ioctl = tuned; frequency = λ w. w }

abbrev no_remainder : ℤ → ℤ → Option ℤ
no_remainder a b = none

main-silent_example :
    (main no_remainder (some 3) (negsuc 4) ((1 ∷ 2 ∷ []) ∷ (3 ∷ 4 ∷ []) ∷ [])
      ≡ some (returned ((0, 1 ∷ 2 ∷ []) ∷ (0, 3 ∷ 4 ∷ []) ∷ []) 3))
    × (Option.map read_ready (make_radio (some 3) (negsuc 4)) ≡ some (pos 0))
main-silent_example =
    main-silent no_remainder (some 3) (negsuc 4) ((1 ∷ 2 ∷ []) ∷ (3 ∷ 4 ∷ []) ∷ [])

-- `Config` ends with the frequency 0.
untuned : config tuner 7 ≡ 0
unfolding config
untuned = refl
