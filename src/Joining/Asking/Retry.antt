-- ===== src/Joining/Asking/Retry.antt =====
-- What a join that fails leaves behind on the machine that wanted to join.
use mathlib.Core.Path.{subst}
use pulseha.Base.{
  String, ltb, length, false≢true, List, [], ◌∷◌, Bool, true, false, not, ◌||◌, ◌==◌, Option, none,
  some, ◌≡◌, ◌≢◌, refl, sym, ◌∙◌, ap, arith, Bool-cases, Option-cases, inl, inr,
}
use pulseha.GoMap.{get, lookup}
use pulseha.Exec.{Outcome, returned, pure, deref, for_each, ◌>>=◌}
use pulseha.Exec.Keeps.{Returns, next-Returns, continue-Returns}
use pulseha.Strconv.{atoi}
use pulseha.Config.{Config, find_by_hostname, Node, Error, cluster_check}
use pulseha.ConfigFile.{save, load, update_value}
use pulseha.Nodes.{node_add, node_get_by_hostname}
use pulseha.World.{World, Env}
use pulseha.Member.{set_last_hc_response}
use pulseha.MemberList.{get_local_member}
use pulseha.Security.{create_folder, store_file, gen_tls_keys, ca_crt, ca_key}
use pulseha.CliServer.{CliReply}
use pulseha.Joining.{
  Outside, JoinAnswer, Created, node_create_local, create_named, name_local, save_local, add_ifaces,
  add_iface, no_local, in_port_range,
}
use pulseha.Joining.Asking.{
  join, join_dialled, join_named, ask_peer, take_answer, take_keys, take_config, finish_join,
  finish_loaded, local_definition,
}

-- The node that was found or made is in the configuration.
abbrev HasLocal : String × Node × Error → World → Type 0
HasLocal (uid, n, none) s = cluster_check s.config ≡ true
HasLocal (uid, n, some e) s = Unit

some_node :
    (c : Config) (uid : String) (n : Node) → get c.nodes uid ≡ some n → cluster_check c ≡ true
unfolding cluster_check lookup
some_node c uid n found = nonempty c.nodes.entries found
  where
    nonempty : (es : List (String × Node)) → lookup uid es ≡ some n → ltb 0 (length es) ≡ true
    nonempty [] e = absurd cc
    nonempty (x ∷ es) e = ground arith

same_reply :
    {A : Type 0} (Post : A → Type 0) (y x : A) → Outcome.returned y ≡ returned x → Post y → Post x
same_reply Post y x e h = let same : y ≡ x = cc in subst Post same h

module _ (env : Env) (out : Outside) where
  local_Returns :
      (uid : String)
      → Returns HasLocal
          ((λ (w : World). deref (get w.config.nodes uid) w) >>= λ n. pure (uid, n, none))
  local_Returns uid s x e = elim (Option-cases (get s.config.nodes uid)) [
    | inl missing ↦ absurd (panic_never x (rw missing at e))
    | inr (n, found) ↦ rw found (
        same_reply (λ y. HasLocal y s) (uid, n, none) x (rw found at e)
          (some_node s.config uid n found))
  ]
    where
      panic_never : (x : Created) → Outcome.panicked ≢ returned x
      panic_never x e = cc

  no_local-Returns : (m : String) → Returns HasLocal (no_local env out m)
  unfolding no_local
  no_local-Returns m s x e = same_reply (λ y. HasLocal y s) _ x e tt

  add_ifaces-Returns :
      (b : Bool) (uid : String) (e : Error) → Returns HasLocal (add_ifaces env out b uid e)
  unfolding add_ifaces
  add_ifaces-Returns b uid (some e) s x r = no_local-Returns e s x r
  add_ifaces-Returns b uid none s x r =
      next-Returns HasLocal (for_each (env.interface_names s.trace) (add_iface env out b uid)) _
        (λ _ t y f. local_Returns uid t y f) s x r

  save_local-Returns :
      (b : Bool) (uid : String) (e : Error) → Returns HasLocal (save_local env out b uid e)
  unfolding save_local
  save_local-Returns b uid (some e) s x r = no_local-Returns e s x r
  save_local-Returns b uid none s x r =
      next-Returns HasLocal (save env) _ (λ e. add_ifaces-Returns b uid e) s x r

  name_local-Returns :
      (b : Bool) (uid : String) (r : Config × Error) → Returns HasLocal (name_local env out b uid r)
  unfolding name_local
  name_local-Returns b uid (c, some e) s x r = no_local-Returns _ s x r
  name_local-Returns b uid (c, none) s x r =
      next-Returns HasLocal (update_value env "local_node" uid) _ (λ e. save_local-Returns b uid e)
        (record s { config = c }) x r

  create_named-Returns :
      (ip port : String) (b : Bool) (h : Option String)
      → Returns HasLocal (create_named env out ip port b h)
  unfolding create_named
  create_named-Returns ip port b none s x r = no_local-Returns _ s x r
  create_named-Returns ip port b (some h) s x r =
      name_local-Returns b (out.uuid s.trace) (node_add s.config (out.uuid s.trace) _) s x r

  -- nodeCreateLocal without an error leaves a cluster.
  pub node_create_local-Returns :
      (ip port : String) (b : Bool) → Returns HasLocal (node_create_local env out ip port b)
  unfolding node_create_local
  node_create_local-Returns ip port b s x r =
      create_named-Returns ip port b (env.hostname s.trace) s x r

  -- Replies of Join after the peer was asked: the call failed, or was refused.
  abbrev pub was_turned_down : CliReply → Bool
  was_turned_down (CliReply.failed code m) = code == 4 || code == 5
  was_turned_down (CliReply.succeeded m) = false

  abbrev Stranded : CliReply → World → Type 0
  Stranded x s = was_turned_down x ≡ true → cluster_check s.config ≡ true

  other_reply :
      (y x : CliReply)
      → was_turned_down y ≡ false
      → Outcome.returned y ≡ returned x
      → was_turned_down x ≢ true
  other_reply y x never e =
      same_reply (λ z. was_turned_down z ≢ true) y x e (λ yes. false≢true (sym never ∙ yes))

  finish_join-Returns : (peer : String) (e : Error) → Returns Stranded (finish_join env out peer e)
  unfolding finish_join finish_loaded set_last_hc_response
  finish_join-Returns peer (some e) s x r = λ yes. absurd (other_reply _ x refl r yes)
  finish_join-Returns peer none s x r =
      next-Returns Stranded (load env) _
        (λ _ t.
          next-Returns Stranded (get_local_member env) _
            (λ l u y f. λ yes. absurd (other_reply _ y refl f yes)) _)
        s x r

  take_config-Returns :
      (peer : String) (c : Option Config) → Returns Stranded (take_config env out peer c)
  unfolding take_config
  take_config-Returns peer none s x r = λ yes. absurd (other_reply _ x refl r yes)
  take_config-Returns peer (some c) s x r =
      next-Returns Stranded (save env) _ (λ e. finish_join-Returns peer e) _ x r

  take_keys-Returns :
      (peer : String) (c : Option Config) (e : Error)
      → Returns Stranded (take_keys env out peer c e)
  unfolding take_keys
  take_keys-Returns peer c (some e) s x r = λ yes. absurd (other_reply _ x refl r yes)
  take_keys-Returns peer c none s x r = take_config-Returns peer c s x r

  take_answer-Returns :
      (ip peer : String) (a : JoinAnswer) (s : World) (x : CliReply)
      → cluster_check s.config ≡ true
      → (take_answer env out ip peer a s).0 ≡ returned x
      → Stranded x (take_answer env out ip peer a s).1
  unfolding take_answer
  take_answer-Returns ip peer (JoinAnswer.unreachable e) s x clustered r = λ _. clustered
  take_answer-Returns ip peer (JoinAnswer.refused m) s x clustered r = λ _. clustered
  take_answer-Returns ip peer (JoinAnswer.accepted c crt key) s x clustered r =
      next-Returns Stranded (create_folder out.disk) _
        (λ _. next-Returns Stranded (store_file out.disk ca_crt crt) _ (λ _.
          next-Returns Stranded (store_file out.disk ca_key key) _ (λ _.
            next-Returns Stranded (gen_tls_keys out.disk ip) _ (λ e. take_keys-Returns peer c e))))
        s x r

  ask_peer-Returns :
      (ip peer token : String) (l : Created) (s : World) (x : CliReply)
      → HasLocal l s
      → (ask_peer env out ip peer token l s).0 ≡ returned x
      → Stranded x (ask_peer env out ip peer token l s).1
  unfolding ask_peer
  ask_peer-Returns ip peer token (uid, n, some e) s x has r =
      λ yes. absurd (other_reply _ x refl r yes)
  ask_peer-Returns ip peer token (uid, n, none) s x has r = take_answer-Returns ip peer _ _ x has r

  -- A node of the own hostname can only be found in a cluster.
  found_node :
      (c : Config) (h uid : String) (n : Node)
      → node_get_by_hostname c h ≡ (uid, n, none)
      → cluster_check c ≡ true
  unfolding node_get_by_hostname cluster_check
  found_node c h uid n e =
      nonempty c.nodes.entries (λ gone. some_never (ap (λ (l : Created). l.2) (rw gone at e)))
    where
      some_never : {m : String} → (some m) ≢ none
      some_never e = cc

      nonempty :
          (es : List (String × Node)) → find_by_hostname h es ≢ none → ltb 0 (length es) ≡ true
      nonempty [] e = absurd (e refl)
      nonempty (x ∷ es) e = ground arith

  local_definition-Returns :
      (ip port h : String) (l : Created) (s : World) (x : Created)
      → node_get_by_hostname s.config h ≡ l
      → (local_definition env out ip port l s).0 ≡ returned x
      → HasLocal x (local_definition env out ip port l s).1
  unfolding local_definition
  local_definition-Returns ip port h (uid, n, none) s x found r =
      same_reply (λ y. HasLocal y s) _ x r (found_node s.config h uid n found)
  local_definition-Returns ip port h (uid, n, some e) s x found r =
      node_create_local-Returns ip port false s x r

  join_named-Returns :
      (ip port peer token : String) (h : Option String)
      → Returns Stranded (join_named env out ip port peer token h)
  unfolding join_named
  join_named-Returns ip port peer token none s x r = λ yes. absurd (other_reply _ x refl r yes)
  join_named-Returns ip port peer token (some h) s x r =
      continue-Returns HasLocal Stranded (ask_peer env out ip peer token)
        (local_definition env out ip port (node_get_by_hostname s.config h) s)
        (λ l f. local_definition-Returns ip port h _ s l refl f)
        (λ l t m y f. ask_peer-Returns ip peer token l t y m f) x r

  join-Stranded :
      (ip port peer_ip peer_port token : String)
      → Returns Stranded (join env out ip port peer_ip peer_port token)
  unfolding join join_dialled
  join-Stranded ip port peer_ip peer_port token s x r = elim (Bool-cases (cluster_check s.config)) [
    | inl clustered ↦ rw clustered (λ yes. absurd (other_reply _ x refl (rw clustered at r) yes))
    | inr alone ↦ elim (Bool-cases (not (in_port_range (atoi port).0))) [
      | inl bad ↦ rw (alone, bad) (λ yes. absurd (other_reply _ x refl (rw (alone, bad) at r) yes))
      | inr good ↦ elim (Option-cases (out.dial_peer s.trace peer_ip peer_port)) [
        | inl connected ↦
            rw (alone, good, connected)
              (join_named-Returns ip port _ token (env.hostname s.trace) s x
                (rw (alone, good, connected) at r))
        | inr (e, down) ↦
            rw (alone, good, down)
              (λ yes. absurd (other_reply _ x refl (rw (alone, good, down) at r) yes))
      ]
    ]
  ]

  -- When Join reports that the peer refused or did not answer, the machine is in a cluster of its own by
  -- then: every further Join is refused because of that, and changes nothing.
  pub join_again :
      (ip port peer_ip peer_port token : String) (w : World) (x : CliReply)
      → (join env out ip port peer_ip peer_port token w).0 ≡ returned x
      → was_turned_down x ≡ true
      → (ip' port' peer_ip' peer_port' token' : String)
      → let after = (join env out ip port peer_ip peer_port token w).1 in
        join env out ip' port' peer_ip' peer_port' token' after
        ≡ (returned (CliReply.failed 9 "Unable to join as PulseHA is already in a cluster."), after)
  unfolding join
  join_again ip port peer_ip peer_port token w x r down ip' port' peer_ip' peer_port' token' =
      rw (join-Stranded ip port peer_ip peer_port token w x r down) refl
