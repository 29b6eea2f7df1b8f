-- ===== src/MemberList/Local.antt =====
-- What looking up the local member leaves alone.
use pulseha.Base.{true, Option, none, some, ◌≡◌, Bool-cases, inl, inr, ℕ}
use pulseha.Exec.Keeps.{Keeps}
use pulseha.Config.{Config, Node, Error, get_local_node}
use pulseha.World.{World, Env, Stored, with_lock}
use pulseha.MemberList.{find_in, get_local_member, find_local, or_new, new_member}

abbrev pub HasConfig : Config → Stored → World → Type 0
HasConfig c f s = (s.config ≡ c) × (s.file ≡ f)

module _ (env : Env) (c : Config) (f : Stored) where
  or_new-Keeps : (o : Option ℕ) → Keeps (HasConfig c f) (or_new env o)
  unfolding or_new new_member
  or_new-Keeps (some p) s h = h
  or_new-Keeps none s h = h

  find_local-Keeps : (l : Node × Error) → Keeps (HasConfig c f) (find_local env l)
  unfolding find_local new_member
  find_local-Keeps (n, some e) s h = h
  find_local-Keeps (n, none) s h = or_new-Keeps (find_in n.hostname s) s h

  -- Configuration and config file stay as they were.
  pub get_local_member-Keeps : Keeps (HasConfig c f) (get_local_member env)
  unfolding get_local_member with_lock
  get_local_member-Keeps s h = elim (Bool-cases s.locked) [
    | inl held ↦ rw held h
    | inr free ↦ rw free (find_local-Keeps (get_local_node s.config) (record s { locked = true }) h)
  ]
