-- ===== src/Tests/Ports.antt =====
-- Tests of serial ports.
use pulseha.Base.{[], true, none, ◌≡◌, ◌↔◌, refl}
use pulseha.Base.Int.{pos}
use pulseha.Exec.{panicked}
use pulseha.Serial.{
  ConnectionOptions, Termios2, Ports, get_termios2, accepted, setup_port, connect_serial,
  serial_options,
}
use pulseha.Serial.Legal.{IsLegal, get_termios2_iff}
use pulseha.Serial.Opening.{IsSetUp, setup_port-IsSetUp, connect_serial_panics}

abbrev willing : Ports
willing = record {
  open_file = λ _ _. none;
  set_nonblock = λ _ _. none;
  ioctl_termios2 = λ _ _ _. (0, 0);
  ioctl_rs485 = λ _ _ _. (0, 0);
  syscall_error = λ name _. name;
}

-- 8 data bits, 1 stop bit, even parity, and half a second to wait
abbrev usual_port : ConnectionOptions
usual_port = record serial_options {
  port_name = "/dev/ttyS0";
  data_bits = 8;
  stop_bits = 1;
  parity_mode = pos 2;
  inter_character_timeout = 512;
  rs485_enable = true;
}

get_termios2_iff_example :
    ((t : Termios2) × (get_termios2 usual_port ≡ accepted t)) ↔ IsLegal usual_port
get_termios2_iff_example = get_termios2_iff usual_port

setup_port-IsSetUp_example : IsSetUp usual_port "/dev/ttyS0" [] (setup_port willing usual_port []).1
unfolding setup_port get_termios2
setup_port-IsSetUp_example = setup_port-IsSetUp willing usual_port "/dev/ttyS0" [] refl

connect_serial_panics_example : (connect_serial willing []).0 ≡ panicked
connect_serial_panics_example = connect_serial_panics willing []
