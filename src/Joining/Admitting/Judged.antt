-- ===== src/Joining/Admitting/Judged.antt =====
-- Whom a node of the cluster lets in.
use mathlib.Core.Path.{subst}
use pulseha.Base.{
  [], ◌∷◌, concat, String, true, false, Option, none, some, str_eq, eq_iff, ◌≡◌, ◌≢◌, refl, sym,
  arith, Bool-cases, inl, inr,
}
use pulseha.Exec.{Outcome, returned, pure, exit, ◌>>◌}
use pulseha.Exec.Keeps.{Returns, next-Returns, if-Returns, continue-Returns}
use pulseha.Config.{Config, Node, Error, cluster_check}
use pulseha.ConfigFile.{save}
use pulseha.Nodes.{node_add, node_delete, node_exists_by_uuid}
use pulseha.World.{World, Env, LogLevel}
use pulseha.Member.{log}
use pulseha.Member.Frame.{Frame-refl, log-Frame}
use pulseha.Joining.{Outside, JoinAnswer}
use pulseha.Joining.Admitting.{
  serve_join, admit_decoded, admit_node, admit, undone, welcome, warn_unsynced, reload_and_send,
  send_certificate, send_keys,
}
use pulseha.Server.{reload, sync_config}
use pulseha.Security.{ca_crt, ca_key}

-- What an answer of Server.Join says of the state before, and of the one that it leaves.
abbrev pub IsJudged :
    (String → String) → String → Option Node → String → World → JoinAnswer → World → Type 0
IsJudged sha256 uid entry token w (JoinAnswer.refused m) s = s.config ≡ w.config
IsJudged sha256 uid entry token w (JoinAnswer.accepted c crt key) s =
    (cluster_check w.config ≡ true)
    × (sha256 token ≡ w.config.pulse.cluster_token)
    × (node_exists_by_uuid w.config uid ≡ false)
    × ((n : Node) × (entry ≡ some n))
IsJudged sha256 uid entry token w (JoinAnswer.unreachable e) s = true ≡ false

abbrev pub IsWelcome : JoinAnswer → World → Type 0
IsWelcome x s =
    (c : Option Config) × (crt : String) × (key : String) × (x ≡ JoinAnswer.accepted c crt key)

module _ (env : Env) (out : Outside) where
  exit_never : (x : JoinAnswer) → Outcome.exited ≢ returned x
  exit_never x e = cc

  send_keys-Returns :
      (uid crt : String) (key : Option String) → Returns IsWelcome (send_keys env out uid crt key)
  unfolding send_keys
  send_keys-Returns uid crt none s x e = absurd (exit_never x e)
  send_keys-Returns uid crt (some key) s x e =
      next-Returns IsWelcome (log env LogLevel.info _) _
        (λ _ t y f. (some s.config, crt, key, ground arith)) s x e

  send_certificate-Returns :
      (uid : String) (crt : Option String) → Returns IsWelcome (send_certificate env out uid crt)
  unfolding send_certificate
  send_certificate-Returns uid none s x e = absurd (exit_never x e)
  send_certificate-Returns uid (some crt) s x e =
      if-Returns IsWelcome _ exit (send_keys env out uid crt (out.disk.read s.trace ca_key))
        (λ t y f. absurd (exit_never y f)) (send_keys-Returns uid crt _) s x e

  welcome-Returns : (uid : String) → Returns IsWelcome (welcome env out uid)
  unfolding welcome reload_and_send
  welcome-Returns uid = next-Returns IsWelcome (sync_config env) _ λ e.
      next-Returns IsWelcome (warn_unsynced env out e) _ λ _.
        next-Returns IsWelcome (reload env) _
          λ _ s. send_certificate-Returns uid (out.disk.read s.trace ca_crt) s

  admit-Returns : (uid : String) (e : Error) → Returns IsWelcome (admit env out uid e)
  unfolding admit undone node_delete
  admit-Returns uid none s x r = welcome-Returns uid s x r
  admit-Returns uid (some e) s x r = elim (Bool-cases (node_exists_by_uuid s.config uid)) [
    | inl there ↦ welcome-Returns uid _ x (rw there at r)
    | inr gone ↦ welcome-Returns uid s x (rw gone at r)
  ]

  same_reply :
      (Post : JoinAnswer → Type 0) (y x : JoinAnswer)
      → Outcome.returned y ≡ returned x
      → Post y
      → Post x
  same_reply Post y x e h = let same : y ≡ x = cc in subst Post same h

  IsWelcome-IsJudged :
      (uid : String) (n : Node) (token : String) (w s : World) (x : JoinAnswer)
      → cluster_check w.config ≡ true
      → out.sha256 token ≡ w.config.pulse.cluster_token
      → node_exists_by_uuid w.config uid ≡ false
      → IsWelcome x s
      → IsJudged out.sha256 uid (some n) token w x s
  IsWelcome-IsJudged uid n token w s x clustered valid fresh (c, crt, key, same) =
      subst (λ y. IsJudged out.sha256 uid (some n) token w y s) (sym same)
        (clustered, valid, fresh, (n, refl))

  admit_decoded-IsJudged :
      (uid : String) (entry : Option Node) (token : String) (w : World) (x : JoinAnswer)
      → cluster_check w.config ≡ true
      → out.sha256 token ≡ w.config.pulse.cluster_token
      → (admit_decoded env out uid entry w).0 ≡ returned x
      → IsJudged out.sha256 uid entry token w x (admit_decoded env out uid entry w).1
  unfolding admit_decoded admit_node node_add
  admit_decoded-IsJudged uid none token w x clustered valid r =
      same_reply (λ y. IsJudged out.sha256 uid none token w y w) _ x r refl
  admit_decoded-IsJudged uid (some n) token w x clustered valid r =
      elim (Bool-cases (node_exists_by_uuid w.config uid)) [
        | inl known ↦ rw known (
            same_reply (λ y. IsJudged out.sha256 uid (some n) token w y w) _ x (rw known at r) refl)
        | inr fresh ↦ rw fresh (
            IsWelcome-IsJudged uid n token w _ x clustered valid fresh (
              next-Returns IsWelcome (save env) (admit env out uid) (λ e. admit-Returns uid e) _ x
                (rw fresh at r)))
      ]

  -- With the token and an unused id a described node is let in, whenever there is an answer.
  pub serve_join-IsWelcome :
      (uid : String) (n : Node) (token : String) (w : World) (x : JoinAnswer)
      → cluster_check w.config ≡ true
      → str_eq w.config.pulse.cluster_token (out.sha256 token) ≡ true
      → node_exists_by_uuid w.config uid ≡ false
      → (serve_join env out uid (some n) token w).0 ≡ returned x
      → IsWelcome x (serve_join env out uid (some n) token w).1
  unfolding serve_join admit_decoded admit_node node_add
  serve_join-IsWelcome uid n token w x clustered valid fresh r =
      next-Returns IsWelcome (save env) (admit env out uid) (λ e. admit-Returns uid e) _ x
        (rw (clustered, valid, fresh) at r)

  -- Whoever asks to join: a refusal leaves the configuration as it was, and a node is accepted only by one
  -- that is in a cluster, with a token whose hash is the cluster's, an id that no node has, and a
  -- description that can be decoded.
  pub serve_join-IsJudged :
      (uid : String) (entry : Option Node) (token : String) (w : World) (x : JoinAnswer)
      → (serve_join env out uid entry token w).0 ≡ returned x
      → IsJudged out.sha256 uid entry token w x (serve_join env out uid entry token w).1
  unfolding serve_join
  serve_join-IsJudged uid entry token w x r = elim (Bool-cases (cluster_check w.config)) [
    | inl clustered ↦ elim (Bool-cases (str_eq w.config.pulse.cluster_token (out.sha256 token))) [
      | inl valid ↦
          rw (clustered, valid)
            (admit_decoded-IsJudged uid entry token w x clustered (sym ((eq_iff _ _).0 valid))
              (rw (clustered, valid) at r))
      | inr invalid ↦ rw (clustered, invalid) (turned_away w (rw (clustered, invalid) at r))
    ]
    | inr alone ↦
        rw alone
          (same_reply (λ y. IsJudged out.sha256 uid entry token w y w) _ x (rw alone at r) refl)
  ]
    where
      message : String
      message = concat (uid ∷ " attempted to join with an invalid cluster token" ∷ [])

      turned_away :
          (s : World)
          → ((log env LogLevel.warning message >> pure (JoinAnswer.refused "Invalid cluster token"))
              s).0
            ≡ returned x
          → IsJudged out.sha256 uid entry token s x
              ((log env LogLevel.warning message
                  >> pure (JoinAnswer.refused "Invalid cluster token"))
                s).1
      turned_away s e =
          continue-Returns (λ _ t. t.config ≡ s.config)
            (λ y t. IsJudged out.sha256 uid entry token s y t)
            (λ _. pure (JoinAnswer.refused "Invalid cluster token"))
            (log env LogLevel.warning message s)
            (λ a f. (log-Frame env s LogLevel.warning message s (Frame-refl s)).config)
            (λ a t same y f. same_reply (λ z. IsJudged out.sha256 uid entry token s z t) _ y f same)
            x e
