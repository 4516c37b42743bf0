-- ===== src/SerialDump/Port.antt =====
-- `configPort` of middleware/src/dump_serial.cpp. A word of flags is its bits by number. The constants
-- and the calls of <termios.h> are parameters.
pub mod Raw
mod Tests
use cpp_examples.Prelude.{ℕ, Bool, true, false, ◌&&◌, ◌||◌, not, Option, none, some, List}

abbrev pub Word : Type 0
Word = ℕ → Bool

-- `a | b` and `a & ~b`
abbrev pub bits_or : Word → Word → Word
bits_or a b i = a i || b i

abbrev pub bits_without : Word → Word → Word
bits_without a b i = a i && not (b i)

-- `struct termios`
pub record Termios : Type 0 where
  pub c_iflag : Word
  pub c_oflag : Word
  pub c_cflag : Word
  pub c_lflag : Word
  pub c_cc : List ℕ

pub record Constants : Type 0 where
  pub clocal : Word
  pub cread : Word
  pub csize : Word
  pub cs8 : Word
  pub parenb : Word
  pub cstopb : Word
  pub crtscts : Word
  pub icanon : Word
  pub echo : Word
  pub echoe : Word
  pub isig : Word
  pub opost : Word

-- What `tcgetattr` gives, where it does not fail, and what `cfsetispeed` and `cfsetospeed` make of the
-- options.
pub record SpeedCalls : Type 0 where
  pub attributes : Option Termios
  pub set_input_speed : ℕ → Termios → Termios
  pub set_output_speed : ℕ → Termios → Termios

-- `options{}` or what `tcgetattr` has put there.
unfoldable pub initial_options : Option Termios → List ℕ → Termios
initial_options none zeros = record {
  c_iflag = λ i. false;
  c_oflag = λ i. false;
  c_cflag = λ i. false;
  c_lflag = λ i. false;
  c_cc = zeros;
}
initial_options (some options) zeros = options

-- The options behind the calls for the speed.
unfoldable pub with_speed : SpeedCalls → ℕ → List ℕ → Termios
with_speed calls baud zeros =
    calls.set_output_speed baud
      (calls.set_input_speed baud (initial_options (calls.attributes) zeros))

module _ (constants : Constants) (calls : SpeedCalls) where
  -- The statements on `c_cflag`, in order.
  unfoldable pub control_flags : Word → Word
  control_flags c_cflag =
      let enabled = bits_or c_cflag (bits_or (constants.clocal) (constants.cread)) in
      let sized = bits_or (bits_without enabled (constants.csize)) (constants.cs8) in
      bits_without (bits_without (bits_without sized (constants.parenb)) (constants.cstopb))
        (constants.crtscts)

  unfoldable pub local_flags : Word → Word
  local_flags c_lflag = bits_without c_lflag (
      bits_or (bits_or (bits_or (constants.icanon) (constants.echo)) (constants.echoe))
        (constants.isig))

  -- `configPort`: the options that `tcsetattr` gets. `zeros` is the `c_cc` of `options{}`.
  unfoldable pub config_port : ℕ → List ℕ → Termios
  config_port baud zeros =
      let options = with_speed calls baud zeros in
      record options {
        c_cflag = control_flags (options.c_cflag);
        c_lflag = local_flags (options.c_lflag);
        c_oflag = bits_without (options.c_oflag) (constants.opost);
      }
