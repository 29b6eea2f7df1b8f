-- ===== src/Member/Frame.antt =====
-- What sending messages leaves alone: dialling and sending change connections and the trace, and
-- nothing else.
use pulseha.Base.{ℕ, String, List, Bool, Option, ◌≡◌, refl, ◌∙◌, arith, Bool-cases, inl, inr}
use pulseha.Exec.Keeps.{Keeps, bind-Keeps}
use pulseha.World.{
  World, Env, Member, Client, Request, LogLevel, store, with_lock, Trace, log_event, sent,
}
use pulseha.Member.Traffic.{
  connect-Keeps, send-Keeps, broadcast_loop-Keeps, broadcast-Keeps, log-Keeps,
}
use pulseha.Member.{connect, send, broadcast_loop, broadcast, log}

-- The same member but for its client, which stays if there was one.
pub record SameMember (m m' : Member) : Type 0 where
  pub hostname : m'.hostname ≡ m.hostname
  pub status : m'.status ≡ m.status
  pub last_hc_response : m'.last_hc_response ≡ m.last_hc_response
  pub latency : m'.latency ≡ m.latency
  pub score : m'.score ≡ m.score
  pub hc_busy : m'.hc_busy ≡ m.hc_busy

pub record Frame (w w' : World) : Type 0 where
  pub config : w'.config ≡ w.config
  pub modules : w'.modules ≡ w.modules
  pub members : w'.members ≡ w.members
  pub next : w'.next ≡ w.next
  pub start_delay : w'.start_delay ≡ w.start_delay
  pub start_interval : w'.start_interval ≡ w.start_interval
  pub file : w'.file ≡ w.file
  pub each : (p : ℕ) → SameMember (w.heap p) (w'.heap p)

SameMember-refl : (m : Member) → SameMember m m
SameMember-refl m = record {
  hostname = refl;
  status = refl;
  last_hc_response = refl;
  latency = refl;
  score = refl;
  hc_busy = refl;
}

pub Frame-refl : (w : World) → Frame w w
Frame-refl w = record {
  config = refl;
  modules = refl;
  members = refl;
  next = refl;
  start_delay = refl;
  start_interval = refl;
  file = refl;
  each = λ p. SameMember-refl (w.heap p);
}

module _ (env : Env) (w : World) where
  -- Setting the client of a member.
  Frame-client :
      (p : ℕ) (c : Option Client) (s : World)
      → Frame w s
      → Frame w (store p (λ m. record m { client = c }) s)
  Frame-client p c s f = record {
    config = f.config;
    modules = f.modules;
    members = f.members;
    next = f.next;
    start_delay = f.start_delay;
    start_interval = f.start_interval;
    file = f.file;
    each = λ q. record {
      hostname = ground (arith, (f.each q).hostname);
      status = ground (arith, (f.each q).status);
      last_hc_response = ground (arith, (f.each q).last_hc_response);
      latency = ground (arith, (f.each q).latency);
      score = ground (arith, (f.each q).score);
      hc_busy = ground (arith, (f.each q).hc_busy);
    };
  }

  pub logged : (s : World) (t : Trace) → Frame w s → Frame w (record s { trace = t })
  logged s t f = record {
    config = f.config;
    modules = f.modules;
    members = f.members;
    next = f.next;
    start_delay = f.start_delay;
    start_interval = f.start_interval;
    file = f.file;
    each = f.each;
  }

  relocked : (s : World) (b : Bool) → Frame w s → Frame w (record s { locked = b })
  relocked s b f = record {
    config = f.config;
    modules = f.modules;
    members = f.members;
    next = f.next;
    start_delay = f.start_delay;
    start_interval = f.start_interval;
    file = f.file;
    each = f.each;
  }

  pub connect-Frame : (p : ℕ) → Keeps (Frame w) (connect env p)
  connect-Frame = connect-Keeps env (Frame w) Frame-client (λ p ip port s f. logged s _ f)

  module _ (r : Request) where
    sent-Frame : (q : ℕ) (s : World) → Frame w s → Frame w (log_event (sent q r) s)
    sent-Frame q s f = logged s _ f

  pub send-Frame : (p : ℕ) (r : Request) → Keeps (Frame w) (send env p r)
  send-Frame p r =
      send-Keeps env (Frame w) Frame-client (λ p ip port s f. logged s _ f) r (sent-Frame r)
        (λ b s f. relocked s b f) p

  pub broadcast_loop-Frame : (r : Request) (ps : List ℕ) → Keeps (Frame w) (broadcast_loop env r ps)
  broadcast_loop-Frame r =
      broadcast_loop-Keeps env (Frame w) Frame-client (λ p ip port s f. logged s _ f) r
        (sent-Frame r) (λ b s f. relocked s b f)

  pub broadcast-Frame : (r : Request) → Keeps (Frame w) (broadcast env r)
  broadcast-Frame r =
      broadcast-Keeps env (Frame w) Frame-client (λ p ip port s f. logged s _ f) r (sent-Frame r)
        (λ b s f. relocked s b f)

  -- A message to the cluster keeps agreement with any state `w` in configuration, plugins, list, config
  -- file, start delay, and every field of the members but their connections.
  pub log-Frame : (l : LogLevel) (m : String) → Keeps (Frame w) (log env l m)
  log-Frame l m =
      log-Keeps env (Frame w) Frame-client (λ p ip port s f. logged s _ f) l m (sent-Frame _)
        (λ b s f. relocked s b f)

-- The mutex is in the end as it was.
pub locked-broadcast :
    (env : Env) (r : Request) (w : World) → (broadcast env r w).1.locked ≡ w.locked
unfolding broadcast with_lock
locked-broadcast env r w = elim (Bool-cases w.locked) [
  | inl held ↦ rw held refl
  | inr free ↦ rw free refl
]

pub locked-log :
    (env : Env) (l : LogLevel) (m : String) (w : World) → (log env l m w).1.locked ≡ w.locked
unfolding log
locked-log env l m w =
    bind-Keeps (λ s. s.locked ≡ w.locked) (broadcast env (Request.logs l m)) _
      (λ s h. locked-broadcast env (Request.logs l m) s ∙ h) (λ _ t g. g) w refl
