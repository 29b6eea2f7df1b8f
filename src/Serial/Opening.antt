-- ===== src/Serial/Opening.antt =====
-- What becomes of the plugin's port.
use pulseha.Base.{
  List, Bool, ◌∷◌, none, some, ◌≡◌, refl, Option-cases, inl, inr, String, true, false,
  if◌then◌else◌,
}
use pulseha.Exec.{returned, panicked, pure}
use pulseha.Config.{Error}
use pulseha.Serial.Legal.{IsLegal, IsFitted, get_termios2_iff, get_termios2-IsFitted}
use pulseha.Serial.{
  ConnectionOptions, Termios2, Result, Answered, refused, accepted, failed, done, rs485_of,
  rs485_answered, set_rs485, termios2_answered, set_termios2, after_nonblock, after_open, Ports,
  PortEvent, get_termios2, setup_port, open_serial, connect_serial,
}

-- Whatever the system answers, Run of the plugin hcSerial panics: the options that it opens the port with
-- are refused.
pub connect_serial_panics :
    (ports : Ports) (es : List PortEvent) → (connect_serial ports es).0 ≡ panicked
unfolding connect_serial open_serial setup_port get_termios2
connect_serial_panics ports es = elim (Option-cases (ports.open_file es "")) [
  | inr (e, why) ↦ rw why refl
  | inl there ↦
      rw there (elim (Option-cases (ports.set_nonblock (PortEvent.port_opened "" ∷ es) "")) [
        | inr (e, why) ↦ rw why refl
        | inl fine ↦ rw fine refl
      ])
]

-- The steps of the RS485 mode, where it is asked for.
abbrev rs485_steps : ConnectionOptions → Bool → List PortEvent → List PortEvent
rs485_steps o true es = PortEvent.rs485_set o.port_name (rs485_of o) ∷ es
rs485_steps o false es = es

-- A port that setup opened: `file` is named by legal options, and was set up by them.
pub record IsSetUp (o : ConnectionOptions) (file : String) (es after : List PortEvent)
    : Type 0 where
  named : file ≡ o.port_name
  legal : IsLegal o
  settings : Termios2
  asked : get_termios2 o ≡ accepted settings
  fitted : IsFitted o settings
  steps :
      after
      ≡ rs485_steps o o.rs485_enable (
          PortEvent.termios2_set o.port_name settings
          ∷ PortEvent.port_blocking o.port_name
          ∷ PortEvent.port_opened o.port_name
          ∷ es)

module _ (ports : Ports) (o : ConnectionOptions) (file : String) where
  rs485_done :
      (a : Answered) (es : List PortEvent)
      → (rs485_answered ports o.port_name (rs485_of o) a es).0 ≡ returned (accepted file)
      → (file ≡ o.port_name)
        × ((rs485_answered ports o.port_name (rs485_of o) a es).1 ≡ rs485_steps o true es)
  unfolding rs485_answered
  rs485_done (failed e) es fine = absurd cc
  rs485_done done es fine = (cc, refl)

  -- setup after the settings, for both values of rs485_enable.
  rs485_if :
      (on : Bool) (es : List PortEvent)
      → ((if on then set_rs485 ports o.port_name o else pure (accepted o.port_name)) es).0
        ≡ returned (accepted file)
      → (file ≡ o.port_name)
        × (((if on then set_rs485 ports o.port_name o else pure (accepted o.port_name)) es).1
            ≡ rs485_steps o on es)
  unfolding set_rs485
  rs485_if true es fine = rs485_done _ es fine
  rs485_if false es fine = (cc, refl)

  termios2_done :
      (t : Termios2) (a : Answered) (es : List PortEvent)
      → (termios2_answered ports o.port_name o t a es).0 ≡ returned (accepted file)
      → (file ≡ o.port_name)
        × ((termios2_answered ports o.port_name o t a es).1
            ≡ rs485_steps o o.rs485_enable (PortEvent.termios2_set o.port_name t ∷ es))
  unfolding termios2_answered
  termios2_done t (failed e) es fine = absurd cc
  termios2_done t done es fine = rs485_if o.rs485_enable _ fine

  settings_done :
      (r : Result Termios2) (es : List PortEvent)
      → (set_termios2 ports o.port_name o r es).0 ≡ returned (accepted file)
      → (t : Termios2) × (r ≡ accepted t)
        × (file ≡ o.port_name)
        × ((set_termios2 ports o.port_name o r es).1
            ≡ rs485_steps o o.rs485_enable (PortEvent.termios2_set o.port_name t ∷ es))
  unfolding set_termios2
  settings_done (refused e) es fine = absurd cc
  settings_done (accepted t) es fine =
      let (named, steps) = termios2_done t _ es fine in (t, refl, named, steps)

  nonblock_done :
      (e : Error) (es : List PortEvent)
      → (after_nonblock ports o e (PortEvent.port_opened o.port_name ∷ es)).0
        ≡ returned (accepted file)
      → IsSetUp o file es (after_nonblock ports o e (PortEvent.port_opened o.port_name ∷ es)).1
  unfolding after_nonblock
  nonblock_done (some e) es fine = absurd cc
  nonblock_done none es fine =
      let (t, asked, named, steps) = settings_done (get_termios2 o) _ fine in
      record {
        named = named;
        legal = (get_termios2_iff o).0 (t, asked);
        settings = t;
        asked = asked;
        fitted = get_termios2-IsFitted o t asked;
        steps = steps;
      }

  open_done :
      (e : Error) (es : List PortEvent)
      → (after_open ports o e es).0 ≡ returned (accepted file)
      → IsSetUp o file es (after_open ports o e es).1
  unfolding after_open
  open_done (some e) es fine = absurd cc
  open_done none es fine =
      nonblock_done (ports.set_nonblock (PortEvent.port_opened o.port_name ∷ es) o.port_name) es
        fine

  -- A port that Open of packages/serial returns is the one named by the options, and these are legal; it
  -- was set up by the settings of get_termios2, whose timeout is the one asked for to a twentieth of a second,
  -- and, where RS485 is enabled, by the options of RS485.
  pub setup_port-IsSetUp :
      (es : List PortEvent)
      → (setup_port ports o es).0 ≡ returned (accepted file)
      → IsSetUp o file es (setup_port ports o es).1
  unfolding setup_port
  setup_port-IsSetUp es fine = open_done (ports.open_file es o.port_name) es fine
