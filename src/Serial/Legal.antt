-- ===== src/Serial/Legal.antt =====
-- Which options get_termios2 accepts, and what it makes of them.
use pulseha.Base.{
  ℕ, List, false, ◌≡◌, ◌↔◌, ◌⊎◌, inl, inr, refl, arith, ◌≤◌, ◌<◌, ◌+◌, ◌*◌, ◌%◌, ◌==◌, ltb, ◌&&◌,
  Option, none, some, ◌≢◌, String, sym, ap, ◌∙◌,
}
use pulseha.Base.Int.{pos, negsuc, ℤ}
use pulseha.Serial.{
  ConnectionOptions, Termios2, Result, accepted, get_termios2, with_bits, with_flags, add_flags,
  flow_flags, Flag, started, round_hundred, stop_flags, data_flags, parity_flags,
}

pub record IsLegal (o : ConnectionOptions) : Type 0 where
  pub stop : (o.stop_bits ≡ 1) ⊎ (o.stop_bits ≡ 2)
  pub parity : (p : ℕ) × (o.parity_mode ≡ pos p) × (p ≤ 2)
  pub bits_low : 5 ≤ o.data_bits
  pub bits_high : o.data_bits ≤ 8
  pub bounded : o.inter_character_timeout < 25550
  pub wakes : (1 ≤ o.minimum_read_size) ⊎ (50 ≤ o.inter_character_timeout)

-- The settings are those asked for: the timeout in tenths of a second is rounded and fits its byte, the
-- other numbers are cut to their width.
pub record IsFitted (o : ConnectionOptions) (t : Termios2) : Type 0 where
  pub timeout_low : t.vtime * 100 ≤ o.inter_character_timeout + 50
  pub timeout_high : o.inter_character_timeout < t.vtime * 100 + 50
  pub timeout_fits : t.vtime < 256
  pub read_size : t.vmin ≡ o.minimum_read_size % 256
  pub in_speed : t.c_ispeed ≡ t.c_ospeed
  pub speed : t.c_ispeed ≡ o.baud_rate % 4294967296

parity_known : (z : ℤ) → parity_flags z ≢ none → (p : ℕ) × (z ≡ pos p) × (p ≤ 2)
parity_known (pos n) known = (n, refl, ground (arith, known))
parity_known (negsuc n) known = absurd (known refl)

known_parity : (z : ℤ) (p : ℕ) → z ≡ pos p → p ≤ 2 → parity_flags z ≢ none
known_parity z p same small = rw same (ground (arith, small))

stop_known : (n : ℕ) → stop_flags n ≢ none → (n ≡ 1) ⊎ (n ≡ 2)
stop_known n known = ground (arith, known)

data_known : (n : ℕ) → data_flags n ≢ none → (5 ≤ n) × (n ≤ 8)
data_known n known = (ground (arith, known), ground (arith, known))

known_data : (n : ℕ) → 5 ≤ n → n ≤ 8 → data_flags n ≢ none
known_data n low high = ground (arith, low, high)

known_stop : (n : ℕ) → (n ≡ 1) ⊎ (n ≡ 2) → stop_flags n ≢ none
known_stop n known = ground (arith, known)

flags_of : (m : Option (List Flag)) → m ≢ none → (fs : List Flag) × (m ≡ some fs)
flags_of none missing = absurd (missing refl)
flags_of (some fs) missing = (fs, refl)

known : (m : Option (List Flag)) (fs : List Flag) → m ≡ some fs → m ≢ none
known m fs same missing = cc

-- Flags that were added are known.
with_flags-some :
    (e : String) (m : Option (List Flag)) (t u : Termios2) (next : Termios2 → Result Termios2)
    → with_flags e m t next ≡ accepted u
    → (fs : List Flag) × (m ≡ some fs) × (next (add_flags t fs) ≡ accepted u)
unfolding with_flags
with_flags-some e none t u next fine = absurd cc
with_flags-some e (some fs) t u next fine = (fs, refl, fine)

-- What adding the flags leaves.
record HasBits (o : ConnectionOptions) (t u : Termios2) : Type 0 where
  stop : stop_flags o.stop_bits ≢ none
  parity : parity_flags o.parity_mode ≢ none
  data_bits : data_flags o.data_bits ≢ none
  vtime : u.vtime ≡ t.vtime
  vmin : u.vmin ≡ t.vmin
  in_speed : u.c_ispeed ≡ t.c_ispeed
  out_speed : u.c_ospeed ≡ t.c_ospeed

with_bits-HasBits :
    (o : ConnectionOptions) (t u : Termios2) → with_bits o t ≡ accepted u → HasBits o t u
unfolding with_bits add_flags
with_bits-HasBits o t u e =
    let (fs, stop, e1) = with_flags-some _ _ _ _ _ e in
    let (gs, parity, e2) = with_flags-some _ _ _ _ _ e1 in
    let (hs, data_bits, e3) = with_flags-some _ _ _ _ _ e2 in
    let made : add_flags (add_flags (add_flags (add_flags t fs) gs) hs)
          (flow_flags o.rts_cts_flow_control)
        ≡ u =
      cc in
    record {
      stop = known _ fs stop;
      parity = known _ gs parity;
      data_bits = known _ hs data_bits;
      vtime = sym (ap (λ (x : Termios2). x.vtime) made);
      vmin = sym (ap (λ (x : Termios2). x.vmin) made);
      in_speed = sym (ap (λ (x : Termios2). x.c_ispeed) made);
      out_speed = sym (ap (λ (x : Termios2). x.c_ospeed) made);
    }

-- What get_termios2 tests before it adds the flags.
accepted_bits :
    (o : ConnectionOptions) (t : Termios2)
    → get_termios2 o ≡ accepted t
    → ((1 ≤ o.minimum_read_size) ⊎ (100 ≤ round_hundred o.inter_character_timeout))
      × (round_hundred o.inter_character_timeout ≤ 25500)
      × (with_bits o (started o) ≡ accepted t)
unfolding get_termios2
accepted_bits o t e = (ground (arith, e), ground (arith, e), ground (arith, e))

accepted-IsLegal : (o : ConnectionOptions) (t : Termios2) → get_termios2 o ≡ accepted t → IsLegal o
accepted-IsLegal o t e =
    let (wakes, bounded, bits) = accepted_bits o t e in
    let b = with_bits-HasBits o (started o) t bits in
    let (low, high) = data_known o.data_bits b.data_bits in
    record {
      stop = stop_known o.stop_bits b.stop;
      parity = parity_known o.parity_mode b.parity;
      bits_low = low;
      bits_high = high;
      bounded = omega (arith, bounded);
      wakes = elim wakes [ inl some_read ↦ inl some_read | inr long ↦ inr (omega (arith, long)) ];
    }

legal_accepted :
    (o : ConnectionOptions) → IsLegal o → (t : Termios2) × (get_termios2 o ≡ accepted t)
unfolding get_termios2 with_bits with_flags
legal_accepted o l =
    let (p, same, small) = l.parity in
    let (fs, stop) = flags_of _ (known_stop o.stop_bits l.stop) in
    let (gs, parity) = flags_of _ (known_parity o.parity_mode p same small) in
    let (hs, data_bits) = flags_of _ (known_data o.data_bits l.bits_low l.bits_high) in
    let awake : (o.minimum_read_size == 0 && ltb (round_hundred o.inter_character_timeout) 100)
        ≡ false =
      elim l.wakes [
        | inl some_read ↦ ground (arith, some_read)
        | inr long ↦ ground (arith, long)
      ] in
    let short : ltb 25500 (round_hundred o.inter_character_timeout) ≡ false =
      ground (arith, l.bounded) in
    rw (awake, short, stop, parity, data_bits) (_, refl)

-- Options are accepted just where the numbers of stop bits and data bits and the parity are ones that the
-- port knows, the timeout rounds to at most 25.5 seconds, and there is a timeout or a number of bytes
-- to wait for.
pub get_termios2_iff :
    (o : ConnectionOptions) → ((t : Termios2) × (get_termios2 o ≡ accepted t)) ↔ IsLegal o
get_termios2_iff o = ((λ p. accepted-IsLegal o p.0 p.1), legal_accepted o)

-- The settings of accepted options: the timeout is the one asked for, rounded to tenths of a second, and
-- fits its byte; the number of bytes is cut to a byte, and the speeds to 32 bits.
pub get_termios2-IsFitted :
    (o : ConnectionOptions) (t : Termios2) → get_termios2 o ≡ accepted t → IsFitted o t
unfolding started
get_termios2-IsFitted o t e =
    let (wakes, bounded, bits) = accepted_bits o t e in
    let b = with_bits-HasBits o (started o) t bits in
    record {
      timeout_low = omega (arith, bounded, b.vtime);
      timeout_high = omega (arith, bounded, b.vtime);
      timeout_fits = omega (arith, bounded, b.vtime);
      read_size = b.vmin;
      in_speed = b.in_speed ∙ sym b.out_speed;
      speed = b.in_speed;
    }

-- A multiple of 256 bytes is accepted without a timeout, and sets the port to wait for neither.
pub get_termios2_polls :
    (o : ConnectionOptions)
    → IsLegal o
    → o.minimum_read_size % 256 ≡ 0
    → o.inter_character_timeout < 50
    → (t : Termios2) × (get_termios2 o ≡ accepted t) × (t.vmin ≡ 0) × (t.vtime ≡ 0)
get_termios2_polls o l whole brief =
    let (t, e) = legal_accepted o l in
    let f = get_termios2-IsFitted o t e in
    (t, e, f.read_size ∙ whole, omega (arith, f.timeout_low, brief))
