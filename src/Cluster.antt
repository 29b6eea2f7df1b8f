-- ===== src/Cluster.antt =====
-- Two machines of a cluster: the requests that one sends to the member object of the other are handled by
-- src/pulseha/server.go there, in the order in which they were sent.
pub mod Quiet
pub mod Demotion
pub mod Handover
pub mod Roles
use pulseha.Base.{ℕ, String, [], ◌∷◌, Option, none, some, ◌≡◌, ◌≢◌, ◌==◌, if◌then◌else◌}
use pulseha.Exec.{Outcome, returned}
use pulseha.World.{World, Env, Request, Trace, sent, connected}
use pulseha.Member.Sending.{CanDial}
use pulseha.Server.{Call, Reply, serve}

-- The other machine.
pub record Peer : Type 0 where
  pub env : Env
  -- its state before the first request
  pub start : World
  -- where the requests come from
  pub address : String
  -- the member object by which the sender reaches it
  pub member : ℕ

-- The method of rpc.ServerClient that a proto function calls; Join is handled in Joining.
unfoldable pub call_of : Request → Option Call
call_of (Request.config_sync c) = some (Call.config_sync (some c))
call_of (Request.join n uid secret) = none
call_of (Request.leave h) = some (Call.leave h)
call_of (Request.make_passive h) = some (Call.make_passive h)
call_of (Request.bring_up_ip iface ips) = some (Call.bring_up_ip iface ips)
call_of (Request.bring_down_ip iface ips) = some (Call.bring_down_ip iface ips)
call_of (Request.health_check ms) = some (Call.health_check ms)
call_of (Request.promote h) = some (Call.promote h)
call_of (Request.logs level m) = some (Call.logs level m)
call_of (Request.remove h) = some (Call.remove h)

unfoldable pub receive : Peer → Option Call → World → Outcome Reply × World
receive q none w = (returned Reply.unauthorized, w)
receive q (some c) w = serve q.env (some q.address) c w

-- The state of the other machine once it has handled what it was sent.
unfoldable pub replay : Peer → Trace → World
replay q [] = q.start
replay q (sent p r ∷ t) =
    let before = replay q t in if p == q.member then (receive q (call_of r) before).1 else before
replay q (e ∷ t) = replay q t

-- What gRPC does between the two machines: grpc.Dial gives a connection on both (it does not block), the
-- one to the other machine comes up, and a call has no error if its handler returned a reply without one.
pub record IsDelivered (env : Env) (q : Peer) : Type 0 where
  pub own : CanDial env
  pub peer : CanDial q.env
  pub dials : (t : Trace) (ip port : String) → env.dial t q.member ip port ≡ connected
  pub answers :
      (t : Trace) (r : Request) (x : Reply)
      → (receive q (call_of r) (replay q t)).0 ≡ returned x
      → x ≢ Reply.unauthorized
      → env.answers t q.member r ≡ none
