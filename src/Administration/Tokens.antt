-- ===== src/Administration/Tokens.antt =====
-- A new token of the cluster, and the nodes that join with it.
use pulseha.Base.{
  String, true, false, false≢true, none, some, str_eq, eq_refl, ◌≡◌, ◌≢◌, refl, ap, ◌∙◌,
}
use pulseha.Exec.{returned}
use pulseha.Exec.Keeps.{Keeps, bind-Keeps}
use pulseha.Config.{Config, Node, Error, cluster_check}
use pulseha.ConfigFile.{save}
use pulseha.ConfigFile.Saving.{save-IsSaving}
use pulseha.Nodes.{node_exists_by_uuid}
use pulseha.World.{World, Env, Request}
use pulseha.Member.{broadcast}
use pulseha.Member.Frame.{Frame-refl, broadcast-Frame}
use pulseha.Server.{sync_config}
use pulseha.Joining.{Outside, JoinAnswer, set_token}
use pulseha.Joining.Admitting.{serve_join}
use pulseha.Joining.Admitting.Judged.{IsWelcome, serve_join-IsWelcome}
use pulseha.Administration.{Order, administer, carry_out, renew_token, token_synced}

module _ (env : Env) (out : Outside) where
  ConfigIs : Config → World → Type 0
  ConfigIs c s = s.config ≡ c

  sync-ConfigIs : (c : Config) → Keeps (ConfigIs c) (sync_config env)
  unfolding sync_config ConfigIs
  sync-ConfigIs c s h =
      bind-Keeps (ConfigIs c) (broadcast env (Request.config_sync s.config)) _
        (λ t k. (broadcast-Frame env t (Request.config_sync s.config) t (Frame-refl t)).config ∙ k)
        (λ _ t k. k) s h

  token_synced-ConfigIs :
      (c : Config) (token : String) (e : Error) → Keeps (ConfigIs c) (token_synced env out token e)
  unfolding token_synced ConfigIs
  token_synced-ConfigIs c token (some e) s h = h
  token_synced-ConfigIs c token none s h =
      bind-Keeps (ConfigIs c) (save env) _ (λ t k. (save-IsSaving env t).memory ∙ k) (λ _ t k. k) s
        h

  renew_token-config :
      (token : String) (w : World)
      → out.random_token w.trace ≡ some token
      → (renew_token env out w).1.config ≡ set_token (out.sha256 token) w.config
  unfolding renew_token ConfigIs
  renew_token-config token w drawn = rw drawn (
      bind-Keeps (ConfigIs (set_token (out.sha256 token) w.config)) (sync_config env) _
        (sync-ConfigIs (set_token (out.sha256 token) w.config))
        (λ e. token_synced-ConfigIs (set_token (out.sha256 token) w.config) token e)
        (record w { config = set_token (out.sha256 token) w.config }) refl)

  kept :
      (c : Config) (hash : String)
      → cluster_check c ≡ true
      → cluster_check (set_token hash c) ≡ true
  unfolding cluster_check
  kept c hash clustered = clustered

  never_refused :
      (m : String) (s : World) (x : JoinAnswer)
      → x ≡ JoinAnswer.refused m
      → IsWelcome x s
      → false ≡ true
  never_refused m s x same (c, crt, key, welcome) = absurd cc

  -- In a cluster the command Token makes a token that opens the cluster: in the state that it leaves, even
  -- where saving failed, Server.Join refuses no node that comes with that token, an id that no node has
  -- and a description that can be decoded.
  pub administer-serve_join :
      (token uid : String) (n : Node) (w : World)
      → cluster_check w.config ≡ true
      → out.random_token w.trace ≡ some token
      → node_exists_by_uuid w.config uid ≡ false
      → (m : String)
      → (serve_join env out uid (some n) token (administer env out Order.new_token w).1).0
        ≢ returned (JoinAnswer.refused m)
  unfolding administer carry_out
  administer-serve_join token uid n w clustered drawn fresh m r = false≢true (
      never_refused m w (JoinAnswer.refused m) refl
        (admitted (renew_token env out w).1 (renew_token-config token w drawn) (rw clustered at r)))
    where
      admitted :
          (s : World)
          → s.config ≡ set_token (out.sha256 token) w.config
          → (serve_join env out uid (some n) token s).0 ≡ returned (JoinAnswer.refused m)
          → IsWelcome (JoinAnswer.refused m) w
      admitted s same e =
          serve_join-IsWelcome env out uid n token s (JoinAnswer.refused m)
            (ap cluster_check same ∙ kept w.config (out.sha256 token) clustered)
            (ap (λ (c : Config). str_eq c.pulse.cluster_token (out.sha256 token)) same
              ∙ eq_refl (out.sha256 token))
            (ap (λ (c : Config). node_exists_by_uuid c uid) same ∙ fresh) e
