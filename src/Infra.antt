-- ===== src/Infra.antt =====
-- backend/internal/infra/infra.go: the capacity of a node and the choice of one. The arithmetic of
-- float64 is a parameter, with the operations that the source uses.
pub mod Selection
mod Tests
use vps_billing_workbuddy.Prelude.{
  ℕ, String, Bool, true, false, not, ◌&&◌, ◌||◌, Option, none, some, List, [], ◌∷◌, ltb, ◌==◌,
  str_eq, if◌then◌else◌,
}
use vps_billing_workbuddy.Prelude.Int.{ℤ, ltb_ℤ, ◌==ℤ◌}
use vps_billing_workbuddy.Prelude.Int64.{◌-w◌}
use vps_billing_workbuddy.Errors.{Result, ok, err, no_node_available}
use vps_billing_workbuddy.Ledger.{Uuid}

-- float64, as far as the package reads it.
pub record Float (F : Type 0) : Type 0 where
  pub nought : F
  pub two : F
  pub add_f : F → F → F
  pub sub_f : F → F → F
  pub div_f : F → F → F
  pub eq_f : F → F → Bool
  pub lt_f : F → F → Bool
  pub le_f : F → F → Bool

pub data NodeStatus : Type 0 where
  online degraded draining maintenance offline : NodeStatus

abbrev pub is_online : NodeStatus → Bool
is_online NodeStatus.online = true
is_online _ = false

pub record Spec (F : Type 0) : Type 0 where
  pub cpu_cores : F
  pub memory_mb : ℤ
  pub disk_gb : ℤ
  pub virtualization : String

-- A node, less the names that the choice does not read.
pub record Node (F : Type 0) : Type 0 where
  pub id : Uuid
  pub status : NodeStatus
  pub cpu_total : F
  pub memory_total_mb : ℤ
  pub disk_total_gb : ℤ
  pub cpu_allocated : F
  pub memory_alloc_mb : ℤ
  pub disk_alloc_gb : ℤ
  pub cpu_reserved : F
  pub memory_rsrv_mb : ℤ
  pub disk_rsrv_gb : ℤ
  pub weight : ℤ
  pub supported_runtimes : List String

-- The loop over the runtimes.
is_runtime : String → List String → Bool
is_runtime name [] = false
is_runtime name (runtime ∷ rest) = str_eq runtime name || is_runtime name rest

module _ {F : Type 0} (float : Float F) where
  unfoldable pub free_capacity : Node F → F × ℤ × ℤ
  free_capacity n = (
    float.sub_f (float.sub_f n.cpu_total n.cpu_allocated) n.cpu_reserved,
    n.memory_total_mb -w n.memory_alloc_mb -w n.memory_rsrv_mb,
    n.disk_total_gb -w n.disk_alloc_gb -w n.disk_rsrv_gb,
  )

  -- An empty list of runtimes is no constraint.
  unfoldable pub supports_spec : Spec F → List String → Bool
  unfolding is_runtime
  supports_spec spec [] = true
  supports_spec spec (runtime ∷ rest) = is_runtime spec.virtualization (runtime ∷ rest)

  abbrev pub covers : F × ℤ × ℤ → Spec F → Bool
  covers (cpu, memory, disk) spec =
      float.le_f spec.cpu_cores cpu
      && not (ltb_ℤ memory spec.memory_mb)
      && not (ltb_ℤ disk spec.disk_gb)

  -- The tests of the loop of `SelectNode`.
  unfoldable pub is_candidate : Spec F → Node F → Bool
  unfolding supports_spec free_capacity
  is_candidate spec n =
      is_online n.status && supports_spec spec n.supported_runtimes && covers (free_capacity n) spec

  unfoldable pub load_ratio : Node F → F
  load_ratio n =
      if float.le_f n.cpu_total float.nought
      then float.two
      else (let committed = float.add_f n.cpu_allocated n.cpu_reserved in
          float.div_f (if float.lt_f committed float.nought then float.nought else committed)
            n.cpu_total)

  -- The order of the candidates; the text of an identifier is ordered as the identifier.
  unfoldable pub precedes : Node F → Node F → Bool
  unfolding load_ratio
  precedes a b =
      if not (float.eq_f (load_ratio a) (load_ratio b))
      then float.lt_f (load_ratio a) (load_ratio b)
      else if not (a.weight ==ℤ b.weight)
      then ltb_ℤ b.weight a.weight
      else ltb a.id b.id

  abbrev pub better : Node F → Option (Node F) → Node F
  better n none = n
  better n (some m) = if precedes n m then n else m

  -- The candidate that the sort puts first.
  unfoldable pub first_candidate : Spec F → List (Node F) → Option (Node F)
  unfolding is_candidate precedes
  first_candidate spec [] = none
  first_candidate spec (n ∷ ns) = elim (is_candidate spec n) [
    | true ↦ some (better n (first_candidate spec ns))
    | false ↦ first_candidate spec ns
  ]

  abbrev or_none_available : Option (Node F) → Result (Node F)
  or_none_available none = err no_node_available
  or_none_available (some n) = ok n

  -- `SelectNode`
  unfoldable pub select_node : Spec F → List (Node F) → Result (Node F)
  unfolding first_candidate
  select_node spec nodes = or_none_available (first_candidate spec nodes)
