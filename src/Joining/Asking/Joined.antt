-- ===== src/Joining/Asking/Joined.antt =====
-- What a join that succeeds leaves on the machine that wanted to join.
use mathlib.Core.Path.{subst}
use pulseha.Base.{
  String, List, [], ◌∷◌, concat, Bool, true, false, false≢true, not, Option, none, some, ◌≡◌, ◌≢◌,
  refl, sym, ap, ◌∙◌, Bool-cases, Option-cases, inl, inr,
}
use pulseha.GoMap.{GoMap, Distinct}
use pulseha.Exec.{Outcome, returned}
use pulseha.Exec.Keeps.{Returns, Keeps, bind-Keeps, continue-Keeps, next-Returns, continue-Returns}
use pulseha.Strconv.{atoi}
use pulseha.Config.{Config, Node, Error, cluster_check}
use pulseha.ConfigFile.{save, load, decode}
use pulseha.ConfigFile.Saving.{save-IsSaving, decode_map_self, load_same}
use pulseha.Nodes.{node_get_by_hostname}
use pulseha.World.{World, Env, Trace, Request, Stored, holds}
use pulseha.Member.{set_last_hc_response}
use pulseha.MemberList.{get_local_member}
use pulseha.MemberList.Local.{HasConfig, get_local_member-Keeps}
use pulseha.Security.{create_folder, store_file, gen_tls_keys, ca_crt, ca_key}
use pulseha.CliServer.{CliReply}
use pulseha.Joining.{Outside, JoinAnswer, Created, in_port_range}
use pulseha.Joining.Asking.{
  join, join_dialled, join_named, ask_peer, take_answer, take_keys, take_config, finish_join,
  finish_loaded, local_definition, merge_peer,
}

abbrev pub is_success : CliReply → Bool
is_success (CliReply.succeeded m) = true
is_success (CliReply.failed code m) = false

module _ (out : Outside) where
  -- A decoded configuration has maps: no node and no group stands twice.
  abbrev pub AnswersHaveMaps : Type 0
  AnswersHaveMaps =
      (t : Trace) (peer : String) (r : Request) (c : Config) (crt key : String)
      → out.peer_answer t peer r ≡ JoinAnswer.accepted (some c) crt key
      → Distinct c.nodes.entries × Distinct c.groups.entries

module _ (out : Outside) (peer token : String) where
  -- The node `peer` answered the request to join with this token: its configuration is in memory and in
  -- the file.
  pub record IsJoined (s : World) : Type 0 where
    pub peer_config : Config
    pub answered :
        (t : Trace) × (n : Node) × (uid : String) × (crt : String) × (key : String)
        × (out.peer_answer t peer (Request.join n uid token)
            ≡ JoinAnswer.accepted (some peer_config) crt key)
    pub nodes : s.config.nodes ≡ peer_config.nodes
    pub groups : s.config.groups ≡ peer_config.groups
    pub saved :
        (f : Config) × ((s.file ≡ holds f)
          × (f.nodes ≡ peer_config.nodes)
          × (f.groups ≡ peer_config.groups))

  abbrev Joined : CliReply → World → Type 0
  Joined x s = is_success x ≡ true → IsJoined s

  failure :
      (y x : CliReply)
      → is_success y ≡ false
      → Outcome.returned y ≡ returned x
      → is_success x ≢ true
  failure y x never e good =
      let same : y ≡ x = cc in false≢true (sym never ∙ ap is_success same ∙ good)

  -- The configuration of an answer, if it could be decoded.
  abbrev Known : Option Config → Type 0
  Known o =
      (c : Config)
      → o ≡ some c
      → (Distinct c.nodes.entries × Distinct c.groups.entries)
        × ((t : Trace) × (n : Node) × (uid : String) × (crt : String) × (key : String)
            × (out.peer_answer t peer (Request.join n uid token)
                ≡ JoinAnswer.accepted (some c) crt key))

module _ (env : Env) (out : Outside) where
  -- What finishing needs: the merged configuration in memory and, without an error, in the file.
  abbrev Merged : Config → Error → World → Type 0
  Merged c e s = (s.config ≡ c) × (e ≡ none → s.file ≡ holds c)

  save-Merged :
      (c : Config) (s : World) (e : Error)
      → s.config ≡ c
      → (save env s).0 ≡ returned e
      → Merged c e (save env s).1
  save-Merged c s e memory r = (
    (save-IsSaving env s).memory ∙ memory,
    λ clean. ((save-IsSaving env s).written (r ∙ ap returned clean)).0 ∙ ap holds memory,
  )

  -- The end of a join keeps configuration and file but for loading.
  after_load-Keeps :
      (peer : String) (c : Config) (f : Stored) → Keeps (HasConfig c f) (finish_loaded env out peer)
  unfolding finish_loaded set_last_hc_response
  after_load-Keeps peer c f s h =
      bind-Keeps (HasConfig c f) (get_local_member env) _ (get_local_member-Keeps env c f)
        (λ l t k. k) _ h

  finish_join-Joined :
      (peer token : String) (c d : Config) (e : Error) (s : World) (x : CliReply)
      → Merged d e s
      → d.nodes ≡ c.nodes
      → d.groups ≡ c.groups
      → Distinct c.nodes.entries × Distinct c.groups.entries
      → ((t : Trace) × (n : Node) × (uid : String) × (crt : String) × (key : String)
          × (out.peer_answer t peer (Request.join n uid token)
              ≡ JoinAnswer.accepted (some c) crt key))
      → (finish_join env out peer e s).0 ≡ returned x
      → Joined out peer token x (finish_join env out peer e s).1
  unfolding finish_join
  finish_join-Joined peer token c d (some e) s x m nodes groups maps answered r =
      λ good. absurd (failure out peer token _ x refl r good)
  finish_join-Joined peer token c d none s x m nodes groups maps answered r = λ good.
      let kept =
        continue-Keeps (HasConfig (decode d d) (holds d)) (λ _. finish_loaded env out peer)
          (load env s) (load_same env d s m.0 (m.1 refl))
          (λ _ t k. after_load-Keeps peer (decode d d) (holds d) t k) in
      record {
        peer_config = c;
        answered = answered;
        nodes =
            ap (λ (a : Config). a.nodes) kept.0
            ∙ decode_map_self d.nodes
                (subst (λ (a : GoMap Node). Distinct a.entries) (sym nodes) maps.0)
            ∙ nodes;
        groups =
            ap (λ (a : Config). a.groups) kept.0
            ∙ decode_map_self d.groups
                (subst (λ (a : GoMap (List String)). Distinct a.entries) (sym groups) maps.1)
            ∙ groups;
        saved = (d, (kept.1, nodes, groups));
      }

  take_config-Joined :
      (peer token : String) (o : Option Config) (s : World) (x : CliReply)
      → Known out peer token o
      → (take_config env out peer o s).0 ≡ returned x
      → Joined out peer token x (take_config env out peer o s).1
  unfolding take_config merge_peer
  take_config-Joined peer token none s x known r =
      λ good. absurd (failure out peer token _ x refl r good)
  take_config-Joined peer token (some c) s x known r =
      let d = merge_peer env out s.config c in
      let t = record s { config = d } in
      let (maps, answered) = known c refl in
      continue-Returns (Merged d) (Joined out peer token) (finish_join env out peer) (save env t)
        (λ e f. save-Merged d t e refl f)
        (λ e u m y f. finish_join-Joined peer token c d e u y m refl refl maps answered f) x r

  take_keys-Joined :
      (peer token : String) (o : Option Config) (e : Error)
      → Known out peer token o
      → Returns (Joined out peer token) (take_keys env out peer o e)
  unfolding take_keys
  take_keys-Joined peer token o (some e) known s x r =
      λ good. absurd (failure out peer token _ x refl r good)
  take_keys-Joined peer token o none known s x r = take_config-Joined peer token o s x known r

  take_answer-Joined :
      (ip peer token : String) (a : JoinAnswer)
      → ((o : Option Config) (crt key : String)
          → a ≡ JoinAnswer.accepted o crt key
          → Known out peer token o)
      → Returns (Joined out peer token) (take_answer env out ip peer a)
  unfolding take_answer
  take_answer-Joined ip peer token (JoinAnswer.unreachable e) known s x r =
      λ good. absurd (failure out peer token _ x refl r good)
  take_answer-Joined ip peer token (JoinAnswer.refused m) known s x r =
      λ good. absurd (failure out peer token _ x refl r good)
  take_answer-Joined ip peer token (JoinAnswer.accepted o crt key) known s x r =
      next-Returns (Joined out peer token) (create_folder out.disk) _
        (λ _. next-Returns (Joined out peer token) (store_file out.disk ca_crt crt) _ (λ _.
          next-Returns (Joined out peer token) (store_file out.disk ca_key key) _ (λ _.
            next-Returns (Joined out peer token) (gen_tls_keys out.disk ip) _
              (λ e. take_keys-Joined peer token o e (known o crt key refl)))))
        s x r

  module _ (maps : AnswersHaveMaps out) where
    peer_answer-Known :
        (t : Trace) (peer token : String) (n : Node) (uid : String) (o : Option Config)
        (crt key : String)
        → out.peer_answer t peer (Request.join n uid token) ≡ JoinAnswer.accepted o crt key
        → Known out peer token o
    peer_answer-Known t peer token n uid o crt key e c same =
        let found = e ∙ ap (λ a. JoinAnswer.accepted a crt key) same in
        (maps t peer (Request.join n uid token) c crt key found, (t, n, uid, crt, key, found))

    ask_peer-Joined :
        (ip peer token : String) (l : Created)
        → Returns (Joined out peer token) (ask_peer env out ip peer token l)
    unfolding ask_peer
    ask_peer-Joined ip peer token (uid, n, some e) s x r =
        λ good. absurd (failure out peer token _ x refl r good)
    ask_peer-Joined ip peer token (uid, n, none) s x r =
        take_answer-Joined ip peer token (out.peer_answer s.trace peer (Request.join n uid token))
          (λ o crt key e. peer_answer-Known s.trace peer token n uid o crt key e) _ x r

    join_named-Joined :
        (ip port peer token : String) (h : Option String)
        → Returns (Joined out peer token) (join_named env out ip port peer token h)
    unfolding join_named
    join_named-Joined ip port peer token none s x r =
        λ good. absurd (failure out peer token _ x refl r good)
    join_named-Joined ip port peer token (some h) s x r =
        next-Returns (Joined out peer token)
          (local_definition env out ip port (node_get_by_hostname s.config h))
          (ask_peer env out ip peer token) (λ l. ask_peer-Joined ip peer token l) s x r

    join-Joined :
        (ip port peer_ip peer_port token : String)
        → Returns
            (Joined out (concat (peer_ip ∷ ":" ∷ peer_port ∷ [])) token)
            (join env out ip port peer_ip peer_port token)
    unfolding join join_dialled
    join-Joined ip port peer_ip peer_port token s x r = elim (Bool-cases (cluster_check s.config)) [
      | inl clustered ↦ λ good. absurd (
          failure out (concat (peer_ip ∷ ":" ∷ peer_port ∷ [])) token _ x refl (rw clustered at r)
            good)
      | inr alone ↦ elim (Bool-cases (not (in_port_range (atoi port).0))) [
        | inl bad ↦ λ good. absurd (
            failure out (concat (peer_ip ∷ ":" ∷ peer_port ∷ [])) token _ x refl
              (rw (alone, bad) at r) good)
        | inr fine ↦ elim (Option-cases (out.dial_peer s.trace peer_ip peer_port)) [
          | inl connected ↦
              rw (alone, fine, connected)
                (join_named-Joined ip port _ token (env.hostname s.trace) s x
                  (rw (alone, fine, connected) at r))
          | inr (e, down) ↦ λ good. absurd (
              failure out (concat (peer_ip ∷ ":" ∷ peer_port ∷ [])) token _ x refl
                (rw (alone, fine, down) at r) good)
        ]
      ]
    ]

    -- When Join reports success, the nodes and groups in memory and in the config file are those with which
    -- the node at the given address and port accepted a request to join with the given token, if what peers
    -- send decodes to maps.
    pub join-IsJoined :
        (ip port peer_ip peer_port token m : String) (w : World)
        → (join env out ip port peer_ip peer_port token w).0 ≡ returned (CliReply.succeeded m)
        → IsJoined out
            (concat (peer_ip ∷ ":" ∷ peer_port ∷ []))
            token
            (join env out ip port peer_ip peer_port token w).1
    join-IsJoined ip port peer_ip peer_port token m w r =
        join-Joined ip port peer_ip peer_port token w (CliReply.succeeded m) r refl
