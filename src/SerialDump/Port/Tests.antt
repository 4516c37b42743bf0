-- ===== src/SerialDump/Port/Tests.antt =====
-- `configPort` of middleware/src/dump_serial.cpp on options with every bit set.
use cpp_examples.Prelude.{ℕ, true, false, ◌||◌, ◌≡◌, refl, some, [], ◌∷◌, ◌==◌, arith}
use cpp_examples.SerialDump.Port.{
  Word, Termios, Constants, SpeedCalls, initial_options, with_speed, control_flags, config_port,
}
use cpp_examples.SerialDump.Port.Raw.{AreSeparate, config_port-AreSeparate}

abbrev bit : ℕ → Word
bit k i = i == k

abbrev constants : Constants
constants = record {
  clocal = bit 11;
  cread = bit 7;
  csize = λ i. (i == 4) || (i == 5);
  cs8 = λ i. (i == 4) || (i == 5);
  parenb = bit 8;
  cstopb = bit 6;
  crtscts = bit 31;
  icanon = bit 1;
  echo = bit 3;
  echoe = bit 4;
  isig = bit 0;
  opost = bit 0;
}

abbrev full : Termios
full = record {
  c_iflag = λ i. true;
  c_oflag = λ i. true;
  c_cflag = λ i. true;
  c_lflag = λ i. true;
  c_cc = 3 ∷ [];
}

abbrev calls : SpeedCalls
calls = record {
  attributes = some full;
  set_input_speed = λ baud options. options;
  set_output_speed = λ baud options. options;
}

parity_cleared : (config_port constants calls 13 []).c_cflag 8 ≡ false
unfolding config_port with_speed initial_options control_flags
parity_cleared = refl

constants-AreSeparate : AreSeparate constants
constants-AreSeparate = record { switches = λ i. ground arith; enabled = λ i. ground arith }

config_port-AreSeparate_example :
    ((config_port constants calls 13 []).c_cflag 5 ≡ true)
    × ((config_port constants calls 13 []).c_lflag 5 ≡ true)
    × ((config_port constants calls 13 []).c_oflag 5 ≡ true)
    × ((config_port constants calls 13 []).c_iflag 5 ≡ true)
    × ((config_port constants calls 13 []).c_cc ≡ 3 ∷ [])
unfolding with_speed initial_options
config_port-AreSeparate_example =
    config_port-AreSeparate constants calls 13 [] 5 constants-AreSeparate
