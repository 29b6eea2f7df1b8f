-- ===== src/Serial.antt =====
-- plugins/hcSerial: the options of a serial port, packages/serial, and the plugin that opens one.
pub mod Legal
pub mod Opening
use pulseha.Base.{
  ℕ, String, List, [], ◌∷◌, ◌++◌, Bool, true, false, ◌&&◌, Option, none, some, ◌==◌, ltb,
  if◌then◌else◌, is_some, ◌+◌, ◌*◌, ◌/◌, ◌%◌, ◌^◌, ◌-◌, not,
}
use pulseha.Base.Int.{ℤ, pos, negsuc}
use pulseha.Config.{Error}
use pulseha.Exec.{Exec, pure, panic, gets, modify, skip, ◌>>=◌, ◌>>◌}

pub record ConnectionOptions : Type 0 where
  pub port_name : String
  pub baud_rate : ℕ
  pub data_bits : ℕ
  pub stop_bits : ℕ
  pub parity_mode : ℤ
  pub rts_cts_flow_control : Bool
  pub inter_character_timeout : ℕ
  pub minimum_read_size : ℕ
  pub rs485_enable : Bool
  pub rs485_rts_high_during_send : Bool
  pub rs485_rts_high_after_send : Bool
  pub rs485_rx_during_tx : Bool
  pub rs485_delay_rts_before_send : ℤ
  pub rs485_delay_rts_after_send : ℤ

-- The bits that are set in c_cflag, by their names in package syscall
pub data Flag : Type 0 where
  clocal cread bother cstopb parenb parodd cs5 cs6 cs7 cs8 crtscts : Flag

-- termios2, without the fields that stay zero
pub record Termios2 : Type 0 where
  pub c_cflag : List Flag
  pub c_ispeed : ℕ
  pub c_ospeed : ℕ
  -- c_cc[VTIME] and c_cc[VMIN]
  pub vtime : ℕ
  pub vmin : ℕ

-- The bits of the flags of serial_rs485
pub data Rs485Flag : Type 0 where
  rs485_enabled rts_on_send rts_after_send rx_during_tx : Rs485Flag

pub record SerialRs485 : Type 0 where
  pub flags : List Rs485Flag
  pub delay_rts_before_send : ℕ
  pub delay_rts_after_send : ℕ

-- A value, or the text of an error
pub data Result (A : Type 0) : Type 0 where
  refused : String → Result A
  accepted : A → Result A

abbrev pub is_standard_baud_rate : ℕ → Bool
is_standard_baud_rate n = is_listed n (
    50 ∷ 75 ∷ 110 ∷ 134 ∷ 150 ∷ 200 ∷ 300 ∷ 600 ∷ 1200 ∷ 1800 ∷ 2400 ∷ 4800 ∷ 7200 ∷ 9600 ∷ 14400
    ∷ 19200 ∷ 28800 ∷ 38400 ∷ 57600 ∷ 76800 ∷ 115200 ∷ 230400 ∷ [])
  where
    is_listed : ℕ → List ℕ → Bool
    is_listed k [] = false
    is_listed k (x ∷ xs) = if k == x then true else is_listed k xs

-- round(ms / 100) * 100, with halves rounded up. Where a float64 is not exact any more, the result is
-- far above the greatest timeout either way.
abbrev pub round_hundred : ℕ → ℕ
round_hundred ms = (ms + 50) / 100 * 100

abbrev pub stop_flags : ℕ → Option (List Flag)
stop_flags n = if n == 1 then some [] else if n == 2 then some (Flag.cstopb ∷ []) else none

abbrev pub parity_flags : ℤ → Option (List Flag)
parity_flags (pos n) =
    if n == 0
    then some []
    else if n == 1
    then some (Flag.parenb ∷ Flag.parodd ∷ [])
    else if n == 2
    then some (Flag.parenb ∷ [])
    else none
parity_flags (negsuc n) = none

abbrev pub data_flags : ℕ → Option (List Flag)
data_flags n =
    if n == 5
    then some (Flag.cs5 ∷ [])
    else if n == 6
    then some (Flag.cs6 ∷ [])
    else if n == 7
    then some (Flag.cs7 ∷ [])
    else if n == 8
    then some (Flag.cs8 ∷ [])
    else none

abbrev pub flow_flags : Bool → List Flag
flow_flags true = Flag.crtscts ∷ []
flow_flags false = []

unfoldable pub add_flags : Termios2 → List Flag → Termios2
add_flags t fs = record t { c_cflag = t.c_cflag ++ fs }

-- The struct before its flags, with the conversions to byte and uint32
unfoldable pub started : ConnectionOptions → Termios2
started o = record {
  c_cflag = Flag.clocal ∷ Flag.cread ∷ Flag.bother ∷ [];
  c_ispeed = o.baud_rate % 2 ^ 32;
  c_ospeed = o.baud_rate % 2 ^ 32;
  vtime = round_hundred o.inter_character_timeout / 100 % 256;
  vmin = o.minimum_read_size % 256;
}

unfoldable pub with_flags :
    String → Option (List Flag) → Termios2 → (Termios2 → Result Termios2) → Result Termios2
unfolding add_flags
with_flags e none t next = Result.refused e
with_flags e (some fs) t next = next (add_flags t fs)

unfoldable pub with_bits : ConnectionOptions → Termios2 → Result Termios2
unfolding with_flags
with_bits o t = with_flags "invalid setting for StopBits" (stop_flags o.stop_bits) t (λ t.
    with_flags "invalid ParityMode value" (parity_flags o.parity_mode) t (λ t.
      with_flags "invalid DataBits value" (data_flags o.data_bits) t
        (λ t. Result.accepted (add_flags t (flow_flags o.rts_cts_flow_control)))))

-- The timeout is a uint, a number below 2^64.
unfoldable pub get_termios2 : ConnectionOptions → Result Termios2
unfolding started with_bits
get_termios2 o =
    if o.minimum_read_size == 0 && ltb (round_hundred o.inter_character_timeout) 100
    then Result.refused "invalid values for InterCharacterTimeout and MinimumReadSize"
    else if ltb 25500 (round_hundred o.inter_character_timeout)
    then Result.refused "invalid value for InterCharacterTimeout"
    else with_bits o (started o)

-- uint32 of an int
abbrev pub to_uint32 : ℤ → ℕ
to_uint32 (pos n) = n % 2 ^ 32
to_uint32 (negsuc n) = 2 ^ 32 - 1 - n % 2 ^ 32

abbrev flag_if : Bool → Rs485Flag → List Rs485Flag
flag_if true f = f ∷ []
flag_if false f = []

unfoldable pub rs485_of : ConnectionOptions → SerialRs485
rs485_of o = record {
  flags =
      Rs485Flag.rs485_enabled
      ∷ (flag_if o.rs485_rts_high_during_send Rs485Flag.rts_on_send
          ++ flag_if o.rs485_rts_high_after_send Rs485Flag.rts_after_send);
  delay_rts_before_send = to_uint32 o.rs485_delay_rts_before_send;
  delay_rts_after_send = to_uint32 o.rs485_delay_rts_after_send;
}

-- What the daemon did to ports, newest first
pub data PortEvent : Type 0 where
  port_opened port_closed port_blocking port_read : String → PortEvent
  termios2_set : String → Termios2 → PortEvent
  rs485_set : String → SerialRs485 → PortEvent

-- What the system answers: os.OpenFile and SetNonblock, and the number of an ioctl's error with its result
pub record Ports : Type 0 where
  pub open_file : List PortEvent → String → Error
  pub set_nonblock : List PortEvent → String → Error
  pub ioctl_termios2 : List PortEvent → String → Termios2 → ℕ × ℕ
  pub ioctl_rs485 : List PortEvent → String → SerialRs485 → ℕ × ℕ
  -- os.NewSyscallError
  pub syscall_error : String → ℕ → String

abbrev pub Port : Type 0 → Type 0
Port A = Exec (List PortEvent) A

abbrev pub note : PortEvent → Port (Unit {0})
note e = modify (λ es. e ∷ es)

-- The options of Open of internal/hcSerial
abbrev pub serial_options : ConnectionOptions
serial_options = record {
  port_name = "";
  baud_rate = 9600;
  data_bits = 0;
  stop_bits = 0;
  parity_mode = pos 0;
  rts_cts_flow_control = false;
  inter_character_timeout = 0;
  minimum_read_size = 0;
  rs485_enable = false;
  rs485_rts_high_during_send = false;
  rs485_rts_high_after_send = false;
  rs485_rx_during_tx = false;
  rs485_delay_rts_before_send = pos 0;
  rs485_delay_rts_after_send = pos 0;
}

-- What an ioctl left, by its error number and its result
pub data Answered : Type 0 where
  failed : String → Answered
  done : Answered

module _ (ports : Ports) where
  unfoldable pub ioctl_answer : String → String → ℕ × ℕ → Answered
  ioctl_answer name unknown (errno, r) =
      if not (errno == 0)
      then Answered.failed (ports.syscall_error name errno)
      else if not (r == 0)
      then Answered.failed unknown
      else Answered.done

  unfoldable pub rs485_answered : String → SerialRs485 → Answered → Port (Result String)
  rs485_answered file s (Answered.failed e) = pure (Result.refused e)
  rs485_answered file s Answered.done = do
    note (PortEvent.rs485_set file s)
    pure (Result.accepted file)

  unfoldable pub set_rs485 : String → ConnectionOptions → Port (Result String)
  unfolding ioctl_answer rs485_answered
  set_rs485 file o = do
    a ← gets (λ es. ports.ioctl_rs485 es file (rs485_of o))
    rs485_answered file (rs485_of o)
        (ioctl_answer "SYS_IOCTL (RS485)" "Unknown error from SYS_IOCTL (RS485)" a)

  unfoldable pub termios2_answered :
      String → ConnectionOptions → Termios2 → Answered → Port (Result String)
  unfolding set_rs485
  termios2_answered file o t (Answered.failed e) = pure (Result.refused e)
  termios2_answered file o t Answered.done = do
    note (PortEvent.termios2_set file t)
    if o.rs485_enable then set_rs485 file o else pure (Result.accepted file)

  unfoldable pub set_termios2 : String → ConnectionOptions → Result Termios2 → Port (Result String)
  unfolding ioctl_answer termios2_answered
  set_termios2 file o (Result.refused e) = pure (Result.refused e)
  set_termios2 file o (Result.accepted t) = do
    a ← gets (λ es. ports.ioctl_termios2 es file t)
    termios2_answered file o t (ioctl_answer "SYS_IOCTL" "unknown error from SYS_IOCTL" a)

  unfoldable pub after_nonblock : ConnectionOptions → Error → Port (Result String)
  unfolding set_termios2
  after_nonblock o (some e) = pure (Result.refused e)
  after_nonblock o none = do
    note (PortEvent.port_blocking o.port_name)
    set_termios2 o.port_name o (get_termios2 o)

  unfoldable pub after_open : ConnectionOptions → Error → Port (Result String)
  unfolding after_nonblock
  after_open o (some e) = pure (Result.refused e)
  after_open o none = do
    note (PortEvent.port_opened o.port_name)
    e ← gets (λ es. ports.set_nonblock es o.port_name)
    after_nonblock o e

  -- setup of packages/serial, which Open calls
  unfoldable pub setup_port : ConnectionOptions → Port (Result String)
  unfolding after_open
  setup_port o = do e ← gets (λ es. ports.open_file es o.port_name); after_open o e

  -- Open of internal/hcSerial once the port is open: it listens once, and closes the port as it returns.
  listen : Result String → Port (Result String)
  listen (Result.refused e) = pure (Result.refused e)
  listen (Result.accepted file) = do
    note (PortEvent.port_read file)
    note (PortEvent.port_closed file)
    pure (Result.accepted file)

  unfoldable pub open_serial : Port (Result String)
  unfolding listen
  open_serial = do r ← setup_port serial_options; listen r

  or_panic : Result String → Port (Unit {0})
  or_panic (Result.refused e) = panic
  or_panic (Result.accepted file) = skip

  -- Run of the plugin, once it has its section in the config
  unfoldable pub connect_serial : Port (Unit {0})
  unfolding or_panic
  connect_serial = do r ← open_serial; or_panic r
