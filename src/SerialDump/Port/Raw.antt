-- ===== src/SerialDump/Port/Raw.antt =====
-- The options that `configPort` of middleware/src/dump_serial.cpp sets.
use cpp_examples.Prelude.{
  ℕ, Bool, true, false, ◌&&◌, ◌||◌, not, ◌≡◌, refl, List, if◌then◌else◌, arith,
}
use cpp_examples.SerialDump.Port.{
  Constants, SpeedCalls, with_speed, control_flags, local_flags, config_port,
}

-- What <termios.h> promises of its constants: CLOCAL, CREAD and the sizes of a character share no bit
-- with each other's fields or with PARENB, CSTOPB and CRTSCTS.
pub record AreSeparate (constants : Constants) : Type 0 where
  pub switches : (i : ℕ) → (constants.clocal i || constants.cread i) && constants.csize i ≡ false
  pub enabled :
      (i : ℕ)
      → (constants.clocal i || (constants.cread i || constants.cs8 i))
          && (constants.parenb i || (constants.cstopb i || constants.crtscts i))
        ≡ false

-- One bit of `c_cflag`: after a mask is set, one is cleared, one is set and three are cleared.
control_bit :
    (w local receive size eight parity stop control : Bool)
    → (local || receive) && size ≡ false
    → (local || (receive || eight)) && (parity || (stop || control)) ≡ false
    → ((((((w || (local || receive)) && not size) || eight) && not parity) && not stop)
        && not control)
      ≡ (if local || (receive || eight)
          then true
          else (if size || (parity || (stop || control)) then false else w))
control_bit w local receive size eight parity stop control a b = ground arith

local_bit :
    (w a b c d : Bool)
    → (w && not (((a || b) || c) || d)) ≡ (if a || (b || (c || d)) then false else w)
local_bit w a b c d = ground arith

output_bit : (w a : Bool) → (w && not a) ≡ (if a then false else w)
output_bit w a = ground arith

module _ (constants : Constants) (calls : SpeedCalls) where
  -- If the constants share no bits that matter, configPort changes the options that it has behind the
  -- calls for the speed in this way: CLOCAL, CREAD and CS8 are set, the other bits of CSIZE and PARENB,
  -- CSTOPB and CRTSCTS are cleared in c_cflag, ICANON, ECHO, ECHOE and ISIG in c_lflag, OPOST in
  -- c_oflag; every other bit, c_iflag and c_cc are kept.
  pub config_port-AreSeparate :
      (baud : ℕ) (zeros : List ℕ) (i : ℕ)
      → AreSeparate constants
      → ((config_port constants calls baud zeros).c_cflag i ≡ (
          if constants.clocal i || (constants.cread i || constants.cs8 i)
          then true
          else (if constants.csize i
                || (constants.parenb i || (constants.cstopb i || constants.crtscts i))
              then false
              else (with_speed calls baud zeros).c_cflag i)))
        × ((config_port constants calls baud zeros).c_lflag i ≡ (
            if constants.icanon i || (constants.echo i || (constants.echoe i || constants.isig i))
            then false
            else (with_speed calls baud zeros).c_lflag i))
        × ((config_port constants calls baud zeros).c_oflag i
            ≡ (if constants.opost i then false else (with_speed calls baud zeros).c_oflag i))
        × ((config_port constants calls baud zeros).c_iflag i
            ≡ (with_speed calls baud zeros).c_iflag i)
        × ((config_port constants calls baud zeros).c_cc ≡ (with_speed calls baud zeros).c_cc)
  unfolding config_port control_flags local_flags
  config_port-AreSeparate baud zeros i separate = (
    control_bit _ (constants.clocal i) (constants.cread i) (constants.csize i) (constants.cs8 i)
        (constants.parenb i) (constants.cstopb i) (constants.crtscts i) (separate.switches i)
        (separate.enabled i),
    local_bit _ (constants.icanon i) (constants.echo i) (constants.echoe i) (constants.isig i),
    output_bit _ (constants.opost i),
    refl,
    refl,
  )
