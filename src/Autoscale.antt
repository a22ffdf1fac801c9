-- ===== src/Autoscale.antt =====
-- crates/aether-controller/src/autoscale.rs: how many nodes the mesh should have. `f64` is the
-- parameter `Real`; times are nanoseconds and the clock is an argument. The text of a decision is
-- replaced by its reason. Where `clamp` panics, the answer is `none`. The timer is not modelled.
mod Bounds
mod Cooldown
mod Wait
mod Tests
use aether_mesh.Base.{
  ℕ, ◌-◌, ◌*◌, min, max, ltb, if◌then◌else◌, Bool, true, false, List, [], ◌∷◌, Option, none, some,
  length, filter,
}
use aether_mesh.Node.{Float, NodeInfo}
use aether_mesh.Connections.{is_connected}
use aether_mesh.Registry.{MeshState, nodes}
use aether_mesh.Traffic.{QueueStats}

-- `f64`, with the conversions between it, `f32` and integers.
pub record Real (float : Float) : Type 1 where
  pub D : Type 0
  pub zero_d : D
  pub one : D
  pub hundredth : D
  pub thousandth : D
  pub add : D → D → D
  pub sub : D → D → D
  pub mul : D → D → D
  pub div : D → D → D
  pub max_d : D → D → D
  pub less : D → D → Bool
  pub ceil : D → D
  pub floor : D → D
  pub from_u64 : ℕ → D
  pub to_usize : D → ℕ
  pub as_secs : ℕ → D
  pub from_f32 : float.F → D
  -- 0.01, `max` and the empty sum of `f32`.
  pub hundredth_f : float.F
  pub max_f : float.F → float.F → float.F
  pub empty_sum : float.F

-- `usize::clamp`, which panics on an empty range.
unfoldable pub clamp : ℕ → ℕ → ℕ → Option ℕ
clamp lo hi x = if ltb hi lo then none else some (max lo (min x hi))

pub data Why : Type 0 where
  cooling below_minimum adding at_maximum backlog releasing at_minimum close_enough : Why

pub data Decision : Type 0 where
  scale_up : (to : ℕ) (why : Why) → Decision
  scale_down : (to : ℕ) (why : Why) → Decision
  no_change : (why : Why) → Decision

unfoldable pub target_nodes : Decision → Option ℕ
target_nodes (scale_up to why) = some to
target_nodes (scale_down to why) = some to
target_nodes (no_change why) = none

module _ (float : Float) where
  pub record Signals : Type 0 where
    pub nodes : ℕ
    pub queue_depth : ℕ
    pub oldest_wait : ℕ
    pub cpu_usage : float.F
    pub memory_usage : float.F

  module _ (real : Real float) where
    open real use {
      D, zero_d, one, hundredth, thousandth, add, sub, mul, div, max_d, less, ceil, floor, from_u64,
      to_usize, as_secs, from_f32, hundredth_f, max_f, empty_sum,
    }

    pub data Target : Type 0 where
      queue_length : (per_node : D) → Target
      cpu_utilization : (fraction : float.F) → Target
      latency : (max_wait_secs : D) → Target

    pub record Policy : Type 0 where
      pub target : Target
      pub min_nodes : ℕ
      pub max_nodes : ℕ
      pub cooldown_secs : ℕ
      pub tolerance : D

    abbrev pub cooldown : Policy → ℕ
    cooldown policy = policy.cooldown_secs * 1_000_000_000

    pub record Autoscaler : Type 0 where
      pub policy : Policy
      pub last_change : Option ℕ

    unfoldable pub new : Policy → Autoscaler
    new policy = record { policy = policy; last_change = none }

    -- `-` on ℕ is `saturating_duration_since`.
    abbrev pub is_recent : ℕ → ℕ → Option ℕ → Bool
    is_recent now pause none = false
    is_recent now pause (some last) = ltb (now - last) pause

    unfoldable pub cooling_down : Autoscaler → ℕ → Bool
    cooling_down scaler now = is_recent now (cooldown scaler.policy) scaler.last_change

    -- How far off target the mesh is: 1 is on target.
    unfoldable pub ratio_of : Target → Signals → D
    ratio_of (queue_length per_node) signals =
        div (from_u64 signals.queue_depth)
          (mul (max_d per_node hundredth) (from_u64 (max signals.nodes 1)))
    ratio_of (cpu_utilization fraction) signals =
        div (from_f32 signals.cpu_usage) (from_f32 (max_f fraction hundredth_f))
    ratio_of (latency max_wait_secs) signals =
        div (as_secs signals.oldest_wait) (max_d max_wait_secs thousandth)

    abbrev pub or_panic : Option ℕ → (ℕ → Decision) → Option Decision
    or_panic none f = none
    or_panic (some to) f = some (f to)

    -- The two values of `wanted`.
    abbrev pub wanted_up : Signals → D → ℕ
    wanted_up signals ratio = to_usize (ceil (mul (from_u64 (max signals.nodes 1)) ratio))

    abbrev pub wanted_down : Signals → D → ℕ
    wanted_down signals ratio =
        to_usize (max_d (floor (mul (from_u64 signals.nodes) (max_d ratio zero_d))) one)

    unfoldable pub grow : Policy → Signals → D → Option Decision
    grow policy signals ratio =
        or_panic (clamp policy.min_nodes policy.max_nodes (wanted_up signals ratio))
          (λ to. if ltb signals.nodes to then scale_up to adding else no_change at_maximum)

    unfoldable pub shrink : Policy → Signals → D → Option Decision
    shrink policy signals ratio =
        if ltb 0 signals.queue_depth
        then some (no_change backlog)
        else or_panic (clamp policy.min_nodes policy.max_nodes (wanted_down signals ratio))
            (λ to. if ltb to signals.nodes then scale_down to releasing else no_change at_minimum)

    unfoldable pub evaluate : Autoscaler → Signals → ℕ → Option Decision
    evaluate scaler signals now =
        let policy = scaler.policy in
        let ratio = ratio_of policy.target signals in
        if cooling_down scaler now
        then some (no_change cooling)
        else if ltb signals.nodes policy.min_nodes
        then some (scale_up policy.min_nodes below_minimum)
        else if less (add one policy.tolerance) ratio
        then grow policy signals ratio
        else if less ratio (sub one policy.tolerance)
        then shrink policy signals ratio
        else some (no_change close_enough)

    abbrev pub changed_at : ℕ → Autoscaler → Option ℕ → Autoscaler
    changed_at now scaler none = scaler
    changed_at now scaler (some to) = record scaler { last_change = some now }

    abbrev pub decided : ℕ → Autoscaler → Option Decision → Option (Autoscaler × Decision)
    decided now scaler none = none
    decided now scaler (some decision) =
        some (changed_at now scaler (target_nodes decision), decision)

    unfoldable pub decide : Autoscaler → Signals → ℕ → Option (Autoscaler × Decision)
    decide scaler signals now = decided now scaler (evaluate scaler signals now)

    unfoldable pub preview : Autoscaler → Signals → ℕ → Option Decision
    preview scaler signals now = evaluate scaler signals now

    -- `sum::<f32>()` of a measure of the nodes.
    abbrev pub sum_of : (NodeInfo float → float.F) → float.F → List (NodeInfo float) → float.F
    sum_of f acc [] = acc
    sum_of f acc (node ∷ rest) = sum_of f (float.add acc (f node)) rest

    abbrev pub mean : (NodeInfo float → float.F) → List (NodeInfo float) → float.F
    mean f [] = float.zero_f
    mean f (node ∷ rest) =
        float.div (sum_of f empty_sum (node ∷ rest)) (float.from_u64 (length (node ∷ rest)))

    -- `Duration::from_millis` of the longest wait that the queue's counters have seen.
    unfoldable pub signals_from : MeshState float → QueueStats → Signals
    signals_from state queue =
        let all = nodes float state.registry in
        record {
          nodes =
              length
                (filter (λ (node : NodeInfo float). is_connected node.id state.connections) all);
          queue_depth = queue.depth;
          oldest_wait = queue.longest_wait_ms * 1_000_000;
          cpu_usage = mean (λ node. node.metrics.cpu_usage) all;
          memory_usage = mean (λ node. node.metrics.memory_usage) all;
        }
